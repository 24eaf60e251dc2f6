-- ===== src/Agent/LoadBalance/Update/Refresh.antt =====
-- `update` as a whole: what it leaves, and what a host that was dropped does to later calls.
use lars.Base.{
  ℕ, ◌≡◌, refl, Bool, true, false, not, ◌&&◌, ◌||◌, List, inl, inr, is_some, is_empty, ok, fault,
  use_after_free, is_ok, is_ok->>=, Returns, Returns-ok, >>=-Returns, arith, Bool-cases,
  Option-cases, ◌∙◌, ap,
}
use lars.Base.Dict.{lookup}
use lars.Base.Sets.{contains}
use lars.Base.Words.{pair_key}
use lars.Agent.Config.{Config}
use lars.Agent.HostInfo.{host_key}
use lars.Agent.Messages.{HostAddr, GetRouteResponse}
use lars.Agent.LoadBalance.{LoadBalance, fresh}
use lars.Agent.LoadBalance.Valid.{ListsExact, IsValid, keyed_at}
use lars.Agent.LoadBalance.Report.{report}
use lars.Agent.LoadBalance.Update.{update, insert_hosts, delete_hosts, remote_keys, need_delete}
use lars.Agent.LoadBalance.Update.Insert.{
  Stale, insert_hosts-Inserted, contains-need_delete, need_delete-Ascending,
}
use lars.Agent.LoadBalance.Update.Delete.{
  Deleted, delete_hosts-Deleted, delete_hosts-stale, Stale-ext,
}

-- No key is dead in a well-formed load_balance.
pub Stale-of_valid : (s : LoadBalance) → IsValid s → Stale (λ k. false) s
Stale-of_valid s v = record {
  freed = λ k p e d. ground arith;
  alive = λ k p e d. v.mapped.keyed k p e;
  entered = v.mapped.entered;
  known = λ k d. ground arith;
  in_use = λ k p e. ground (arith, v.mapped.keyed k p e, v.lists.unused p);
}

pub IsValid-of_Stale : (s : LoadBalance) → ListsExact s → Stale (λ k. false) s → IsValid s
IsValid-of_Stale s v w = record {
  lists = v;
  mapped = record { keyed = λ k p e. w.alive k p e refl; entered = w.entered };
}

-- The keys that are dead after an update.
abbrev pub dead_after : (ℕ → Bool) → LoadBalance → List HostAddr → ℕ → Bool
dead_after dead s hosts k =
    dead k || (is_some (lookup k s.host_map) && not (contains k (remote_keys hosts)))

-- What an update leaves.
pub record Updated (dead : ℕ → Bool) (s : LoadBalance) (hosts : List HostAddr) (s' : LoadBalance)
    : Type 0 where
  pub lists : ListsExact s'
  pub stale : Stale (dead_after dead s hosts) s'
  pub keys :
      (k : ℕ)
      → is_some (lookup k s'.host_map)
        ≡ (contains k (remote_keys hosts) || is_some (lookup k s.host_map))

stamp-ListsExact :
    (now : ℕ) (s : LoadBalance)
    → ListsExact s
    → ListsExact (record s { status = fresh; last_update_time = now })
stamp-ListsExact now s v = record {
  idle_exact = v.idle_exact;
  overload_exact = v.overload_exact;
  stamped = v.stamped;
  unused = v.unused;
}

stamp-Stale :
    (now : ℕ) (dead : ℕ → Bool) (s : LoadBalance)
    → Stale dead s
    → Stale dead (record s { status = fresh; last_update_time = now })
stamp-Stale now dead s w = record {
  freed = w.freed;
  alive = w.alive;
  entered = w.entered;
  known = w.known;
  in_use = w.in_use;
}

update-Returns :
    (dead : ℕ → Bool) (cfg : Config) (now later : ℕ) (rsp : GetRouteResponse) (s : LoadBalance)
    → ListsExact s
    → Stale dead s
    → is_empty rsp.host ≡ false
    → ((k : ℕ) → dead k ≡ true → contains k (remote_keys rsp.host) ≡ true)
    → Returns (Updated dead s rsp.host) (update cfg now later rsp s)
unfolding update
update-Returns dead cfg now later rsp s v w some_host named =
    let i = insert_hosts-Inserted dead cfg later rsp.host s v w in
    rw (some_host, update)
      (>>=-Returns (Deleted (λ j. dead j || contains j gone) s1) _ (delete_hosts gone s1) _
        (delete_hosts-Deleted gone dead s1 i.lists i.stale
          (need_delete-Ascending (remote_keys rsp.host) s1.host_map)
          (λ k c.
            ground (arith, contains-need_delete (remote_keys rsp.host) k s1.host_map, named k)))
        λ s' d. record {
          lists = stamp-ListsExact now s' d.lists;
          stale = stamp-Stale now _ s' (
              Stale-ext _ _ s'
                (λ k.
                  ground
                    (arith, contains-need_delete (remote_keys rsp.host) k s1.host_map, i.keys k))
                d.stale);
          keys = λ k. ap (λ m. is_some (lookup k m)) d.map ∙ i.keys k;
        })
  where
    s1 : LoadBalance
    s1 = insert_hosts cfg later rsp.host s

    gone : List ℕ
    gone = need_delete (remote_keys rsp.host) s1.host_map

-- From a load_balance whose dead keys are all named by the response, `update` does not fault. The
-- lists are exact again; the entries with a pointer to a freed object are those dead before and
-- those that the response does not name; no entry is lost, and each host named has one.
pub update-Updated :
    (dead : ℕ → Bool) (cfg : Config) (now later : ℕ) (rsp : GetRouteResponse) (s : LoadBalance)
    → ListsExact s
    → Stale dead s
    → is_empty rsp.host ≡ false
    → ((k : ℕ) → dead k ≡ true → contains k (remote_keys rsp.host) ≡ true)
    → (s' : LoadBalance) × (update cfg now later rsp s ≡ ok s') × Updated dead s rsp.host s'
update-Updated dead cfg now later rsp s v w some_host named =
    Returns-ok (Updated dead s rsp.host) _
      (update-Returns dead cfg now later rsp s v w some_host named)

-- An update that names every host that the well-formed load_balance has keeps it well formed.
pub update-IsValid :
    (cfg : Config) (now later : ℕ) (rsp : GetRouteResponse) (s : LoadBalance)
    → IsValid s
    → is_empty rsp.host ≡ false
    → ((k : ℕ) → is_some (lookup k s.host_map) ≡ true → contains k (remote_keys rsp.host) ≡ true)
    → (s' : LoadBalance) × (update cfg now later rsp s ≡ ok s') × IsValid s'
update-IsValid cfg now later rsp s v some_host named =
    let (s', e, u) =
      update-Updated (λ k. false) cfg now later rsp s v.lists (Stale-of_valid s v) some_host
        (λ k d. ground arith) in
    (s', e, IsValid-of_Stale s' u.lists (Stale-ext _ _ s' (λ k. ground (arith, named k)) u.stale))

-- A report on a key whose object was freed reads the freed object.
report-dead :
    (dead : ℕ → Bool) (cfg : Config) (now later ip port retcode : ℕ) (s : LoadBalance)
    → Stale dead s
    → dead (pair_key ip port) ≡ true
    → report cfg now later ip port retcode s ≡ fault use_after_free
unfolding report
report-dead dead cfg now later ip port retcode s w d =
    elim (Option-cases (lookup (pair_key ip port) s.host_map)) [
      | inl missing ↦ ground (arith, w.known (pair_key ip port) d)
      | inr (p, found) ↦ rw (found, report) (rw (w.freed (pair_key ip port) p found d))
    ]

-- A second response without the dropped host frees it again.
update-dead :
    (dead : ℕ → Bool) (cfg : Config) (now later k : ℕ) (rsp : GetRouteResponse) (s : LoadBalance)
    → ListsExact s
    → Stale dead s
    → dead k ≡ true
    → contains k (remote_keys rsp.host) ≡ false
    → is_ok (update cfg now later rsp s) ≡ false
unfolding update
update-dead dead cfg now later k rsp s v w d dropped = elim (Bool-cases (is_empty rsp.host)) [
  | inl none_given ↦ rw none_given
  | inr given ↦
      let i = insert_hosts-Inserted dead cfg later rsp.host s v w in
      let s1 = insert_hosts cfg later rsp.host s in
      elim (Option-cases (lookup k s1.host_map)) [
        | inl missing ↦ ground (arith, i.stale.known k d)
        | inr (p, found) ↦
            rw (given, update)
              (is_ok->>= (delete_hosts (need_delete (remote_keys rsp.host) s1.host_map) s1) _ (
                delete_hosts-stale _ k p s1 found (i.stale.freed k p found d)
                  (ground (arith, contains-need_delete (remote_keys rsp.host) k s1.host_map))))
      ]
]

-- A host that a response drops stays in `_host_map` with its object freed: from then on a report on
-- it reads the freed object, and a later response that does not name it makes `update` fault.
pub dropped_host :
    (cfg : Config) (now later ip port : ℕ) (rsp : GetRouteResponse) (s : LoadBalance)
    (t u retcode : ℕ) (next : GetRouteResponse)
    → IsValid s
    → is_empty rsp.host ≡ false
    → is_some (lookup (pair_key ip port) s.host_map) ≡ true
    → contains (pair_key ip port) (remote_keys rsp.host) ≡ false
    → contains (pair_key ip port) (remote_keys next.host) ≡ false
    → (s' : LoadBalance) × (update cfg now later rsp s ≡ ok s')
      × (report cfg t u ip port retcode s' ≡ fault use_after_free)
      × (is_ok (update cfg t u next s') ≡ false)
dropped_host cfg now later ip port rsp s t u retcode next v some_host mapped dropped again =
    let (s', e, r) =
      update-Updated (λ k. false) cfg now later rsp s v.lists (Stale-of_valid s v) some_host
        (λ k d. ground arith) in
    (
      s',
      e,
      report-dead _ cfg t u ip port retcode s' r.stale (ground arith),
      update-dead _ cfg t u (pair_key ip port) next s' r.lists r.stale (ground arith) again,
    )

-- A later response that names a dropped host again, and every other dropped host, succeeds, and yet
-- no live host has its key.
pub readded_host :
    (dead : ℕ → Bool) (cfg : Config) (now later k : ℕ) (rsp : GetRouteResponse) (s : LoadBalance)
    → ListsExact s
    → Stale dead s
    → dead k ≡ true
    → is_empty rsp.host ≡ false
    → ((j : ℕ) → dead j ≡ true → contains j (remote_keys rsp.host) ≡ true)
    → (s' : LoadBalance) × (update cfg now later rsp s ≡ ok s')
      × ((p : ℕ) → keyed_at k (s'.cell p) ≡ false)
readded_host dead cfg now later k rsp s v w d some_host named =
    let (s', e, r) = update-Updated dead cfg now later rsp s v w some_host named in
    (
      s',
      e,
      λ p. elim (Option-cases (s'.cell p)) [
        | inl gone ↦ rw gone
        | inr (h, live) ↦ rw live (
            ground (
              arith,
              r.stale.freed k p,
              r.stale.entered p h live,
              ap (λ j. lookup j s'.host_map) {x = host_key h} {y = k},
            ))
      ],
    )
