-- ===== src/Agent/LoadBalance/Update/Delete.antt =====
-- Part 4 of `update`: the objects are freed, their entries stay.
use lars.Base.{
  ℕ, ◌≡◌, refl, Bool, true, false, ◌||◌, List, [], ◌∷◌, none, some, inl, inr, is_some, ap, ok,
  fault, use_after_free, is_ok, Returns, >>=-Returns, Returns-mono, Result-cases, ◌∙◌, ◌==◌, arith,
  count-remove, Bool-cases, Option-cases,
}
use lars.Base.Dict.{lookup}
use lars.Base.Sets.{contains, Ascending, Ascending-tail, lt_of_contains}
use lars.Agent.HostInfo.{HostInfo}
use lars.Agent.LoadBalance.{LoadBalance, write}
use lars.Agent.LoadBalance.Valid.{ListsExact}
use lars.Agent.LoadBalance.Update.{delete_host, delete_hosts, unlist}
use lars.Agent.LoadBalance.Update.Insert.{Stale}

-- The key `k` joins the dead ones.
abbrev pub or_key : (ℕ → Bool) → ℕ → ℕ → Bool
or_key dead k j = dead j || (k == j)

pub record Deleted (dead : ℕ → Bool) (s s' : LoadBalance) : Type 0 where
  pub lists : ListsExact s'
  pub stale : Stale dead s'
  pub map : s'.host_map ≡ s.host_map

module _ (dead : ℕ → Bool) (k p : ℕ) (s : LoadBalance) (h : HostInfo) (v : ListsExact s)
    (w : Stale dead s) (found : lookup k s.host_map ≡ some p) (live : s.cell p ≡ some h) where
  free-ListsExact : ListsExact (record (unlist s p h) { cell = write s.cell p none })
  unfolding unlist
  free-ListsExact = record {
    idle_exact = λ q. ground (arith, v.idle_exact q, count-remove q p s.idle_list);
    overload_exact = λ q. ground (arith, v.overload_exact q, count-remove q p s.overload_list);
    stamped = λ q. ground (arith, v.stamped q);
    unused = λ q l. ground (arith, v.unused q);
  }

  free-Stale :
      dead k ≡ false → Stale (or_key dead k) (record (unlist s p h) { cell = write s.cell p none })
  unfolding unlist
  free-Stale new = record {
    freed = λ j q e d. ground (arith, w.freed j q, ap (λ i. lookup i s.host_map) {x = k} {y = j});
    alive = λ j q e d. ground (arith, w.alive j q, w.alive k p);
    entered = λ q g e. ground (arith, w.entered q g);
    known = λ j d. ground (arith, w.known j, ap (λ i. lookup i s.host_map) {x = k} {y = j});
    in_use = λ j q e. ground (arith, w.in_use j q);
  }

delete_host-Deleted :
    (dead : ℕ → Bool) (k : ℕ) (s : LoadBalance)
    → ListsExact s
    → Stale dead s
    → dead k ≡ false
    → is_some (lookup k s.host_map) ≡ true
    → Returns (Deleted (or_key dead k) s) (delete_host k s)
unfolding delete_host
delete_host-Deleted dead k s v w new named = elim (Option-cases (lookup k s.host_map)) [
  | inl missing ↦ ground arith
  | inr (p, found) ↦ elim (Option-cases (s.cell p)) [
    | inl freed ↦ ground (arith, w.alive k p found new)
    | inr (h, live) ↦
        rw (found, delete_host)
          (rw live (record {
            lists = free-ListsExact dead k p s h v w found live;
            stale = free-Stale dead k p s h v w found live new;
            map = ground arith;
          }))
  ]
]

pub Stale-ext :
    (dead dead' : ℕ → Bool) (s : LoadBalance)
    → ((k : ℕ) → dead k ≡ dead' k)
    → Stale dead s
    → Stale dead' s
Stale-ext dead dead' s same w = record {
  freed = λ k q e d. w.freed k q e (same k ∙ d);
  alive = λ k q e d. w.alive k q e (same k ∙ d);
  entered = w.entered;
  known = λ k d. w.known k (same k ∙ d);
  in_use = w.in_use;
}

-- The loop frees the object of each key once, when the keys ascend and none is dead yet.
pub delete_hosts-Deleted :
    (ks : List ℕ) (dead : ℕ → Bool) (s : LoadBalance)
    → ListsExact s
    → Stale dead s
    → Ascending ks
    → ((k : ℕ) → contains k ks ≡ true → (dead k ≡ false) × (is_some (lookup k s.host_map) ≡ true))
    → Returns (Deleted (λ j. dead j || contains j ks) s) (delete_hosts ks s)
unfolding delete_hosts contains
delete_hosts-Deleted [] dead s v w up new = record {
  lists = v;
  stale = Stale-ext dead _ s (λ k. ground arith) w;
  map = refl;
}
delete_hosts-Deleted (k ∷ ks) dead s v w up new =
    >>=-Returns (Deleted (or_key dead k) s) _ (delete_host k s) (delete_hosts ks)
      (delete_host-Deleted dead k s v w (new k (ground arith)).0 (new k (ground arith)).1)
      λ s' d.
        Returns-mono (Deleted (λ j. or_key dead k j || contains j ks) s') _ _
          (λ s'' d'. record {
            lists = d'.lists;
            stale = Stale-ext _ _ s'' (λ j. ground arith) d'.stale;
            map = d'.map ∙ d.map;
          })
          (delete_hosts-Deleted ks (or_key dead k) s' d.lists d.stale (Ascending-tail k ks up)
            λ j here. ground (
              arith,
              new j,
              lt_of_contains k j ks up here,
              d.map,
              ap (λ m. is_some (lookup j m)) d.map,
            ))

delete_host-keeps :
    (k p : ℕ) (s s' : LoadBalance)
    → delete_host k s ≡ ok s'
    → s.cell p ≡ none
    → (s'.cell p ≡ none) × (s'.host_map ≡ s.host_map)
unfolding delete_host unlist
delete_host-keeps k p s s' e freed = ground arith

delete_host-freed :
    (k p : ℕ) (s : LoadBalance)
    → lookup k s.host_map ≡ some p
    → s.cell p ≡ none
    → delete_host k s ≡ fault use_after_free
unfolding delete_host
delete_host-freed k p s found freed = rw found (rw freed)

-- A key whose object is freed already is fatal to the loop.
pub delete_hosts-stale :
    (ks : List ℕ) (k p : ℕ) (s : LoadBalance)
    → lookup k s.host_map ≡ some p
    → s.cell p ≡ none
    → contains k ks ≡ true
    → is_ok (delete_hosts ks s) ≡ false
unfolding delete_hosts contains
delete_hosts-stale [] k p s found freed here = cc
delete_hosts-stale (j ∷ ks) k p s found freed here = elim (Bool-cases (j == k)) [
  | inl same ↦ let e : j ≡ k = ground arith in rw (e, delete_host-freed k p s found freed)
  | inr other ↦ elim (Result-cases (delete_host j s)) [
    | inl (s', e) ↦ rw e (
        let (freed', map') = delete_host-keeps j p s s' e freed in
        delete_hosts-stale ks k p s' (rw map' found) freed' (ground arith))
    | inr (f, e) ↦ rw e
  ]
]
