-- ===== src/Agent/LoadBalance/Report/Lists.antt =====
-- `report` keeps the lists exact.
use lars.Base.{ℕ, ◌≡◌, true, false, some, is_some, arith, count-remove, count-push}
use lars.Agent.HostInfo.{HostInfo}
use lars.Agent.LoadBalance.{LoadBalance}
use lars.Agent.LoadBalance.Valid.{ListsExact, stamped_at}
use lars.Agent.LoadBalance.Report.{move_to_idle, move_to_overload, keep_host}

module _ (s : LoadBalance) (p : ℕ) (h h' : HostInfo) (old : s.cell p ≡ some h)
    (v : ListsExact s) where
  pub move_to_overload-ListsExact :
      h.overload ≡ false
      → h'.overload ≡ true
      → is_some h'.overload_ts ≡ true
      → ListsExact (move_to_overload s p h')
  unfolding move_to_overload
  move_to_overload-ListsExact idle over ts = record {
    idle_exact = λ q. ground (arith, v.idle_exact q, count-remove q p s.idle_list);
    overload_exact =
        λ q. ground (arith, v.overload_exact q, v.overload_exact p, count-push q p s.overload_list);
    stamped = λ q. ground (arith, v.stamped q);
    unused = λ q l. ground (arith, v.unused q l);
  }

  pub move_to_idle-ListsExact :
      h.overload ≡ true → h'.overload ≡ false → ListsExact (move_to_idle s p h')
  unfolding move_to_idle
  move_to_idle-ListsExact over idle = record {
    idle_exact = λ q. ground (arith, v.idle_exact q, v.idle_exact p, count-push q p s.idle_list);
    overload_exact = λ q. ground (arith, v.overload_exact q, count-remove q p s.overload_list);
    stamped = λ q. ground (arith, v.stamped q);
    unused = λ q l. ground (arith, v.unused q l);
  }

  pub keep_host-ListsExact :
      h'.overload ≡ h.overload → stamped_at (some h') ≡ true → ListsExact (keep_host s p h')
  unfolding keep_host
  keep_host-ListsExact same ts = record {
    idle_exact = λ q. ground (arith, v.idle_exact q, v.idle_exact p);
    overload_exact = λ q. ground (arith, v.overload_exact q, v.overload_exact p);
    stamped = λ q. ground (arith, v.stamped q);
    unused = λ q l. ground (arith, v.unused q l);
  }
