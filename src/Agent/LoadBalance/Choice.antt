-- ===== src/Agent/LoadBalance/Choice.antt =====
-- What `choice_one_host` serves, and that it keeps a load_balance well formed.
use lars.Base.{
  ℕ, ◌+◌, ◌<◌, ◌≡◌, ◌≢◌, refl, ◌∙◌, Bool, true, false, not, ◌&&◌, List, [], ◌∷◌, ◌++◌, Option, some,
  ok, Returns, Returns-ok, Returns-mono, inl, inr, is_empty, if◌then◌else◌, leb, count, arith,
  count-push, Bool-cases,
}
use lars.Base.Dict.{Dict, lookup}
use lars.Agent.Config.{Config}
use lars.Agent.HostInfo.{HostInfo}
use lars.Agent.Messages.{GetHostResponse, ret_succ, ret_overload}
use lars.Agent.LoadBalance.{
  LoadBalance, choice_one_host, choose_idle, choose_overload, get_host_from_list,
}
use lars.Agent.LoadBalance.Valid.{IsValid, idle_at, overload_at}

entry : (k p : ℕ) (m : Dict ℕ) → lookup k ((k, p) ∷ m) ≡ some p
unfolding lookup
entry k p m = ground arith

-- The response names a live host of the list `overload` or of the other.
pub record Serves (heap : ℕ → Option HostInfo) (overload : Bool) (rsp : GetHostResponse)
    : Type 0 where
  pub cell : ℕ
  pub host : HostInfo
  pub live : heap cell ≡ some host
  pub listed : host.overload ≡ overload
  pub address : rsp.host ≡ record { ip = host.ip; port = host.port }

-- A rotated list holds the same cells.
count-rotate : (q p : ℕ) (rest : List ℕ) → count q (rest ++ p ∷ []) ≡ count q (p ∷ rest)
count-rotate q p rest = ground (arith, count-push q p rest)

live_of_idle :
    (s : LoadBalance) (p : ℕ)
    → 0 < idle_at (s.cell p)
    → (h : HostInfo) × (s.cell p ≡ some h) × (h.overload ≡ false)
live_of_idle s p n = ground arith

live_of_overload :
    (s : LoadBalance) (p : ℕ)
    → 0 < overload_at (s.cell p)
    → (h : HostInfo) × (s.cell p ≡ some h) × (h.overload ≡ true)
live_of_overload s p n = ground arith

-- The counter of accesses plays no part in well-formedness.
recount-IsValid : (s : LoadBalance) (n : ℕ) → IsValid s → IsValid (record s { access_cnt = n })
recount-IsValid s n v = record {
  lists = record {
    idle_exact = v.lists.idle_exact;
    overload_exact = v.lists.overload_exact;
    stamped = v.lists.stamped;
    unused = v.lists.unused;
  };
  mapped = v.mapped;
}

module _ (s : LoadBalance) (p : ℕ) (rest : List ℕ) (v : IsValid s) where
  rotate_idle-IsValid : s.idle_list ≡ p ∷ rest → IsValid (record s { idle_list = rest ++ p ∷ [] })
  rotate_idle-IsValid e = record {
    lists = record {
      idle_exact = λ q. count-rotate q p rest ∙ (rw e at (v.lists.idle_exact q));
      overload_exact = v.lists.overload_exact;
      stamped = v.lists.stamped;
      unused = v.lists.unused;
    };
    mapped = v.mapped;
  }

  rotate_overload-IsValid :
      s.overload_list ≡ p ∷ rest → IsValid (record s { overload_list = rest ++ p ∷ [] })
  rotate_overload-IsValid e = record {
    lists = record {
      idle_exact = v.lists.idle_exact;
      overload_exact = λ q. count-rotate q p rest ∙ (rw e at (v.lists.overload_exact q));
      stamped = v.lists.stamped;
      unused = v.lists.unused;
    };
    mapped = v.mapped;
  }

  head_of_idle :
      s.idle_list ≡ p ∷ rest → (h : HostInfo) × (s.cell p ≡ some h) × (h.overload ≡ false)
  head_of_idle e = ground (arith, v.lists.idle_exact p)

  head_of_overload :
      s.overload_list ≡ p ∷ rest → (h : HostInfo) × (s.cell p ≡ some h) × (h.overload ≡ true)
  head_of_overload e = ground (arith, v.lists.overload_exact p)

-- A host of the list that `overload` names is served, and the rest is well formed.
abbrev Served : LoadBalance → Bool → ℕ × GetHostResponse × LoadBalance → Type 0
Served s overload r = (r.0 ≡ ret_succ) × Serves s.cell overload r.1 × IsValid r.2

choose_idle-Served :
    (s : LoadBalance) (rsp : GetHostResponse)
    → IsValid s
    → s.idle_list ≢ []
    → Returns (Served s false) (choose_idle s rsp)
unfolding choose_idle get_host_from_list
choose_idle-Served s rsp v ne = go s.idle_list refl
  where
    go : (l : List ℕ) → s.idle_list ≡ l → Returns (Served s false) (choose_idle s rsp)
    go [] e = absurd (ne e)
    go (p ∷ rest) e =
        let (h, live, idle) = head_of_idle s p rest v e in
        rw (e, choose_idle)
          (rw live (
            refl,
            record { cell = p; host = h; live = live; listed = idle; address = refl },
            rotate_idle-IsValid s p rest v e,
          ))

choose_overload-Served :
    (s : LoadBalance) (rsp : GetHostResponse)
    → IsValid s
    → s.overload_list ≢ []
    → Returns (Served s true) (choose_overload s rsp)
unfolding choose_overload get_host_from_list
choose_overload-Served s rsp v ne = go s.overload_list refl
  where
    go : (l : List ℕ) → s.overload_list ≡ l → Returns (Served s true) (choose_overload s rsp)
    go [] e = absurd (ne e)
    go (p ∷ rest) e =
        let (h, live, over) = head_of_overload s p rest v e in
        rw (e, choose_overload)
          (rw live (
            refl,
            record { cell = p; host = h; live = live; listed = over; address = refl },
            rotate_overload-IsValid s p rest v e,
          ))

-- A well-formed load_balance with an entry has a host in one of the lists.
pub lists_of_entry :
    (s : LoadBalance)
    → IsValid s
    → is_empty s.host_map ≡ false
    → s.idle_list ≡ []
    → s.overload_list ≢ []
lists_of_entry s v filled idle over = go s.host_map refl
  where
    go : (m : Dict ℕ) → s.host_map ≡ m → ⊥
    go [] e = ground arith
    go ((k, p) ∷ m) e = ground (
      arith,
      v.mapped.keyed k p (rw e (entry k p m)),
      v.lists.idle_exact p,
      v.lists.overload_exact p,
    )

-- When a request is refused, and when it is served an overloaded host.
abbrev pub is_refused : Config → LoadBalance → Bool
is_refused cfg s = is_empty s.idle_list && not (leb cfg.probe_num s.access_cnt)

abbrev pub is_probe : Config → LoadBalance → Bool
is_probe cfg s = not (is_empty s.overload_list) && leb cfg.probe_num s.access_cnt

-- What one request is answered: a refusal that changes only the counter, or a live host, which is
-- overloaded exactly on a probe.
abbrev pub Answer :
    Config → LoadBalance → GetHostResponse → ℕ × GetHostResponse × LoadBalance → Type 0
Answer cfg s rsp r =
    if is_refused cfg s
    then r ≡ (ret_overload, rsp, record s { access_cnt = s.access_cnt + 1 })
    else (r.0 ≡ ret_succ) × Serves s.cell (is_probe cfg s) r.1

pub is_empty_nil : (xs : List ℕ) → is_empty xs ≡ true → xs ≡ []
is_empty_nil [] e = refl
is_empty_nil (x ∷ xs) e = ground arith

is_empty_cons : (xs : List ℕ) → is_empty xs ≡ false → xs ≢ []
is_empty_cons [] e = ground arith
is_empty_cons (x ∷ xs) e = ground arith

choice-Returns :
    (cfg : Config) (s : LoadBalance) (rsp : GetHostResponse)
    → IsValid s
    → is_empty s.host_map ≡ false
    → Returns (λ r. Answer cfg s rsp r × IsValid r.2) (choice_one_host cfg s rsp)
unfolding choice_one_host
choice-Returns cfg s rsp v filled = elim (Bool-cases (is_empty s.idle_list)) [
  | inl idle ↦ elim (Bool-cases (is_empty s.overload_list)) [
    | inl over ↦ absurd (
        lists_of_entry s v filled (is_empty_nil s.idle_list idle)
          (is_empty_nil s.overload_list over))
    | inr over ↦ elim (Bool-cases (leb cfg.probe_num s.access_cnt)) [
      | inl due ↦
          rw (idle, over, due, choice_one_host)
            (Returns-mono (Served (record s { access_cnt = 0 }) true) _ _ (λ r h. ((h.0, h.1), h.2))
              (choose_overload-Served (record s { access_cnt = 0 }) rsp (recount-IsValid s 0 v)
                (is_empty_cons s.overload_list over)))
      | inr early ↦ rw (idle, early, choice_one_host) (refl, recount-IsValid s (s.access_cnt + 1) v)
    ]
  ]
  | inr idle ↦ elim (Bool-cases (is_empty s.overload_list)) [
    | inl over ↦
        rw (idle, over, choice_one_host)
          (Returns-mono (Served s false) _ _ (λ r h. ((h.0, h.1), h.2))
            (choose_idle-Served s rsp v (is_empty_cons s.idle_list idle)))
    | inr over ↦ elim (Bool-cases (leb cfg.probe_num s.access_cnt)) [
      | inl due ↦
          rw (idle, over, due, choice_one_host)
            (Returns-mono (Served (record s { access_cnt = 0 }) true) _ _ (λ r h. ((h.0, h.1), h.2))
              (choose_overload-Served (record s { access_cnt = 0 }) rsp (recount-IsValid s 0 v)
                (is_empty_cons s.overload_list over)))
      | inr early ↦
          rw (idle, over, early, choice_one_host)
            (Returns-mono (Served (record s { access_cnt = s.access_cnt + 1 }) false) _ _
              (λ r h. ((h.0, h.1), h.2))
              (choose_idle-Served (record s { access_cnt = s.access_cnt + 1 }) rsp
                (recount-IsValid s (s.access_cnt + 1) v) (is_empty_cons s.idle_list idle)))
    ]
  ]
]

-- On a well-formed load_balance with an entry, `choice_one_host` never faults and leaves it well
-- formed. It refuses exactly when no host is idle and fewer than `probe_num` requests have passed,
-- and then only counts; otherwise it serves a live host, an overloaded one exactly when there is
-- one and `probe_num` requests have passed.
pub choice-IsValid :
    (cfg : Config) (s : LoadBalance) (rsp : GetHostResponse)
    → IsValid s
    → is_empty s.host_map ≡ false
    → (r : ℕ × GetHostResponse × LoadBalance) × (choice_one_host cfg s rsp ≡ ok r)
      × (Answer cfg s rsp r × IsValid r.2)
choice-IsValid cfg s rsp v filled =
    Returns-ok (λ r. Answer cfg s rsp r × IsValid r.2) _ (choice-Returns cfg s rsp v filled)
