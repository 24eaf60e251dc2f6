-- ===== src/Agent/LoadBalance/Update/First.antt =====
-- The first answer for a module: its load_balance is new, and afterwards every host is idle.
use lars.Base.{
  ℕ, ◌≡◌, refl, true, false, List, [], ◌∷◌, is_some, is_empty, ok, IfOk, >>=-IfOk, of_IfOk, inl,
  inr, arith, Bool-cases, Option-cases, remove-nil,
}
use lars.Base.Dict.{lookup}
use lars.Base.Sets.{contains, contains-insert_sorted}
use lars.Base.Words.{pair_key}
use lars.Agent.Config.{Config}
use lars.Agent.HostInfo.{host_key}
use lars.Agent.Messages.{HostAddr, GetHostResponse, GetRouteResponse, ret_succ}
use lars.Agent.LoadBalance.{LoadBalance, choice_one_host}
use lars.Agent.LoadBalance.Valid.{IsValid}
use lars.Agent.LoadBalance.Choice.{Serves, choice-IsValid, lists_of_entry, is_probe, is_empty_nil}
use lars.Agent.LoadBalance.Update.{
  insert_host, insert_hosts, delete_host, delete_hosts, unlist, update, remote_keys, need_delete,
}
use lars.Agent.LoadBalance.Update.Delete.{Stale-ext}
use lars.Agent.LoadBalance.Update.Refresh.{update-Updated, Stale-of_valid, IsValid-of_Stale}

insert_hosts-overload :
    (cfg : Config) (now : ℕ) (hosts : List HostAddr) (s : LoadBalance)
    → (insert_hosts cfg now hosts s).overload_list ≡ s.overload_list
unfolding insert_hosts insert_host
insert_hosts-overload cfg now [] s = refl
insert_hosts-overload cfg now (a ∷ rest) s =
    ground (arith, insert_hosts-overload cfg now rest (insert_host cfg now a s))

delete_host-overload :
    (k : ℕ) (s : LoadBalance)
    → s.overload_list ≡ []
    → IfOk (λ s'. s'.overload_list ≡ []) (delete_host k s)
unfolding delete_host unlist
delete_host-overload k s over = elim (Option-cases (lookup k s.host_map)) [
  | inl missing ↦ rw (missing, delete_host) tt
  | inr (p, found) ↦ elim (Option-cases (s.cell p)) [
    | inl freed ↦ rw (found, delete_host) (rw freed tt)
    | inr (h, live) ↦ rw (found, delete_host) (rw live (ground (arith, remove-nil p)))
  ]
]

delete_hosts-overload :
    (ks : List ℕ) (s : LoadBalance)
    → s.overload_list ≡ []
    → IfOk (λ s'. s'.overload_list ≡ []) (delete_hosts ks s)
unfolding delete_hosts
delete_hosts-overload [] s over = over
delete_hosts-overload (k ∷ ks) s over =
    >>=-IfOk _ (delete_host k s) (delete_hosts ks)
      λ s' e. delete_hosts-overload ks s' (of_IfOk _ _ (delete_host-overload k s over) e)

update-overload :
    (cfg : Config) (now later : ℕ) (rsp : GetRouteResponse) (s : LoadBalance)
    → s.overload_list ≡ []
    → IfOk (λ s'. s'.overload_list ≡ []) (update cfg now later rsp s)
unfolding update
update-overload cfg now later rsp s over = elim (Bool-cases (is_empty rsp.host)) [
  | inl gone ↦ rw gone tt
  | inr given ↦
      let s1 = insert_hosts cfg later rsp.host s in
      rw (given, update)
        (>>=-IfOk _ (delete_hosts (need_delete (remote_keys rsp.host) s1.host_map) s1) _ λ s' e.
          of_IfOk (λ (x : LoadBalance). x.overload_list ≡ []) _
            (delete_hosts-overload _ s1
              (ground (arith, insert_hosts-overload cfg later rsp.host s)))
            e)
]

-- The new load_balance after its first answer: well formed, no host overloaded, the hosts those
-- that the answer names.
pub record First (hosts : List HostAddr) (s : LoadBalance) : Type 0 where
  pub valid : IsValid s
  pub filled : is_empty s.host_map ≡ false
  pub calm : s.overload_list ≡ []
  pub keys : (k : ℕ) → is_some (lookup k s.host_map) ≡ contains k (remote_keys hosts)

named_once :
    (hosts : List HostAddr)
    → is_empty hosts ≡ false
    → (k : ℕ) × (contains k (remote_keys hosts) ≡ true)
unfolding remote_keys
named_once [] e = ground arith
named_once (a ∷ rest) e = (
  pair_key a.ip a.port,
  ground (
    arith,
    contains-insert_sorted (pair_key a.ip a.port) (pair_key a.ip a.port) (remote_keys rest),
  ),
)

filled_of_entry :
    (s : LoadBalance) (k : ℕ) → is_some (lookup k s.host_map) ≡ true → is_empty s.host_map ≡ false
unfolding lookup
filled_of_entry s k e = ground arith

pub update-First :
    (cfg : Config) (now later : ℕ) (rsp : GetRouteResponse) (s : LoadBalance)
    → IsValid s
    → s.host_map ≡ []
    → s.overload_list ≡ []
    → is_empty rsp.host ≡ false
    → (s' : LoadBalance) × (update cfg now later rsp s ≡ ok s') × First rsp.host s'
unfolding lookup
update-First cfg now later rsp s v bare over given =
    let (s', e, u) =
      update-Updated (λ k. false) cfg now later rsp s v.lists (Stale-of_valid s v) given
        (λ k d. ground arith) in
    let (k, named) = named_once rsp.host given in
    (
      s',
      e,
      record {
        valid = IsValid-of_Stale s' u.lists (Stale-ext _ _ s' (λ k. ground arith) u.stale);
        filled = filled_of_entry s' k (ground (arith, u.keys k));
        calm = of_IfOk _ _ (update-overload cfg now later rsp s over) e;
        keys = λ k. ground (arith, u.keys k);
      },
    )

-- A host of the answer is served at once.
pub choice-First :
    (cfg : Config) (hosts : List HostAddr) (s : LoadBalance) (rsp : GetHostResponse)
    → First hosts s
    → (r : ℕ × GetHostResponse × LoadBalance) × (choice_one_host cfg s rsp ≡ ok r)
      × (r.0 ≡ ret_succ)
      × (contains (pair_key r.1.host.ip r.1.host.port) (remote_keys hosts) ≡ true)
choice-First cfg hosts s rsp f =
    let (r, e, (answer, v)) = choice-IsValid cfg s rsp f.valid f.filled in
    let some_idle : is_empty s.idle_list ≡ false = elim (Bool-cases (is_empty s.idle_list)) [
      | inl idle ↦ absurd (lists_of_entry s f.valid f.filled (is_empty_nil s.idle_list idle) f.calm)
      | inr idle ↦ idle
    ] in
    let (good, served) : (r.0 ≡ ret_succ) × Serves s.cell (is_probe cfg s) r.1 =
      rw some_idle at answer in
    (
      r,
      e,
      good,
      rw served.address (
          ground (
            arith,
            f.keys (host_key served.host),
            f.valid.mapped.entered served.cell served.host served.live,
          )),
    )
