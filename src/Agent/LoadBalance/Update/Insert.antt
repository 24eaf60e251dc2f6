-- ===== src/Agent/LoadBalance/Update/Insert.antt =====
-- Parts 2 and 3 of `update`: hosts that are new, and keys that are gone.
use lars.Base.{
  ℕ, ◌<◌, ◌≡◌, refl, Bool, true, false, not, ◌&&◌, ◌||◌, List, [], ◌∷◌, none, some, is_some, ◌==◌,
  arith, count-push,
}
use lars.Base.Dict.{Dict, lookup, lookup-insert}
use lars.Base.Sets.{contains, contains-insert_sorted, Ascending, insert_sorted-Ascending}
use lars.Base.Words.{pair_key}
use lars.Agent.Config.{Config}
use lars.Agent.HostInfo.{HostInfo, host_key, new_host}
use lars.Agent.Messages.{HostAddr}
use lars.Agent.LoadBalance.{LoadBalance}
use lars.Agent.LoadBalance.Valid.{ListsExact, keyed_at}
use lars.Agent.LoadBalance.Update.{insert_host, insert_hosts, remote_keys, need_delete}

-- The entries of `_host_map` whose key is in `dead` point to freed objects, the others to live hosts
-- of their key; and every live host has its entry.
pub record Stale (dead : ℕ → Bool) (s : LoadBalance) : Type 0 where
  pub freed : (k p : ℕ) → lookup k s.host_map ≡ some p → dead k ≡ true → s.cell p ≡ none
  pub alive :
      (k p : ℕ) → lookup k s.host_map ≡ some p → dead k ≡ false → keyed_at k (s.cell p) ≡ true
  pub entered : (p : ℕ) (h : HostInfo) → s.cell p ≡ some h → lookup (host_key h) s.host_map ≡ some p
  pub known : (k : ℕ) → dead k ≡ true → is_some (lookup k s.host_map) ≡ true
  pub in_use : (k p : ℕ) → lookup k s.host_map ≡ some p → p < s.next_cell

module _ (dead : ℕ → Bool) (cfg : Config) (now : ℕ) (a : HostAddr) (s : LoadBalance)
    (v : ListsExact s) (w : Stale dead s) where
  insert_host-ListsExact : ListsExact (insert_host cfg now a s)
  unfolding insert_host new_host
  insert_host-ListsExact = record {
    idle_exact = λ q.
        ground (arith, v.idle_exact q, count-push q s.next_cell s.idle_list, v.unused s.next_cell);
    overload_exact = λ q. ground (arith, v.overload_exact q, v.unused s.next_cell);
    stamped = λ q. ground (arith, v.stamped q);
    unused = λ q l. ground (arith, v.unused q);
  }

  insert_host-Stale : Stale dead (insert_host cfg now a s)
  unfolding insert_host new_host
  insert_host-Stale = record {
    known = λ k d.
        ground (arith, w.known k d, lookup-insert (pair_key a.ip a.port) k s.next_cell s.host_map);
    freed = λ k q e d. ground (
      arith,
      w.freed k q,
      w.known k d,
      w.in_use k q,
      lookup-insert (pair_key a.ip a.port) k s.next_cell s.host_map,
    );
    alive = λ k q e d. ground (
      arith,
      w.alive k q,
      w.in_use k q,
      lookup-insert (pair_key a.ip a.port) k s.next_cell s.host_map,
    );
    entered = λ q h e. ground (
      arith,
      w.entered q h,
      v.unused q,
      lookup-insert (pair_key a.ip a.port) (host_key h) s.next_cell s.host_map,
    );
    in_use = λ k q e.
        ground (arith, w.in_use k q, lookup-insert (pair_key a.ip a.port) k s.next_cell s.host_map);
  }

  -- The host has its entry, and no entry is lost.
  insert_host-enters :
      (k : ℕ)
      → is_some (lookup k (insert_host cfg now a s).host_map)
        ≡ ((pair_key a.ip a.port == k) || is_some (lookup k s.host_map))
  unfolding insert_host
  insert_host-enters k =
      ground (arith, lookup-insert (pair_key a.ip a.port) k s.next_cell s.host_map)

-- The loop over the response.
pub record Inserted (dead : ℕ → Bool) (s : LoadBalance) (hosts : List HostAddr) (s' : LoadBalance)
    : Type 0 where
  pub lists : ListsExact s'
  pub stale : Stale dead s'
  pub keys :
      (k : ℕ)
      → is_some (lookup k s'.host_map)
        ≡ (contains k (remote_keys hosts) || is_some (lookup k s.host_map))

pub insert_hosts-Inserted :
    (dead : ℕ → Bool) (cfg : Config) (now : ℕ) (hosts : List HostAddr) (s : LoadBalance)
    → ListsExact s
    → Stale dead s
    → Inserted dead s hosts (insert_hosts cfg now hosts s)
unfolding insert_hosts remote_keys contains
insert_hosts-Inserted dead cfg now [] s v w = record { lists = v; stale = w; keys = λ k. refl }
insert_hosts-Inserted dead cfg now (a ∷ rest) s v w =
    let ih =
      insert_hosts-Inserted dead cfg now rest (insert_host cfg now a s)
        (insert_host-ListsExact dead cfg now a s v w) (insert_host-Stale dead cfg now a s v w) in
    record {
      lists = ih.lists;
      stale = ih.stale;
      keys = λ k. ground (
        arith,
        ih.keys k,
        insert_host-enters dead cfg now a s v w k,
        contains-insert_sorted k (pair_key a.ip a.port) (remote_keys rest),
      );
    }

pub contains-need_delete :
    (remote : List ℕ) (k : ℕ) (m : Dict ℕ)
    → contains k (need_delete remote m) ≡ (is_some (lookup k m) && not (contains k remote))
unfolding need_delete lookup contains
contains-need_delete remote k [] = refl
contains-need_delete remote k ((j, p) ∷ m) =
    ground
      (arith, contains-need_delete remote k m, contains-insert_sorted k j (need_delete remote m))

pub need_delete-Ascending : (remote : List ℕ) (m : Dict ℕ) → Ascending (need_delete remote m)
unfolding need_delete
need_delete-Ascending remote [] = tt
need_delete-Ascending remote ((j, p) ∷ m) =
    ground (arith, need_delete-Ascending remote m, insert_sorted-Ascending j (need_delete remote m))
