-- ===== src/Agent/LoadBalance/Report/Keeps.antt =====
-- `report` never faults on a well-formed load_balance, and leaves it well formed.
use lars.Base.{
  ℕ, ◌≡◌, refl, sym, true, false, some, ok, Returns, Returns-ok, inl, inr, arith, Option-cases,
}
use lars.Base.Dict.{lookup}
use lars.Base.Words.{pair_key}
use lars.Agent.Config.{Config}
use lars.Agent.HostInfo.{HostInfo, set_idle, set_overload, count_result}
use lars.Agent.LoadBalance.{LoadBalance}
use lars.Agent.LoadBalance.Valid.{IsValid, write-Points}
use lars.Agent.LoadBalance.Report.{
  report, settle, expire, move_to_idle, move_to_overload, keep_host,
}
use lars.Agent.LoadBalance.Report.Lists.{
  move_to_overload-ListsExact, move_to_idle-ListsExact, keep_host-ListsExact,
}

-- `h'` is `h` with other counters.
record SameHost (h h' : HostInfo) : Type 0 where
  ip : h'.ip ≡ h.ip
  port : h'.port ≡ h.port
  overload : h'.overload ≡ h.overload
  overload_ts : h'.overload_ts ≡ h.overload_ts

count_result-SameHost : (retcode : ℕ) (h : HostInfo) → SameHost h (count_result retcode h)
unfolding count_result
count_result-SameHost retcode h = ground arith

module _ (cfg : Config) (now later retcode : ℕ) (s : LoadBalance) (p : ℕ) (h h' : HostInfo)
    (old : s.cell p ≡ some h) (v : IsValid s) (same : SameHost h h') where
  to_overload-IsValid :
      h.overload ≡ false → IsValid (move_to_overload s p (set_overload cfg later h'))
  unfolding set_overload move_to_overload
  to_overload-IsValid idle = record {
    lists = move_to_overload-ListsExact s p h _ old v.lists idle refl refl;
    mapped = write-Points s.host_map s.cell p h _ old same.ip same.port v.mapped;
  }

  to_idle-IsValid : h.overload ≡ true → IsValid (move_to_idle s p (set_idle cfg later h'))
  unfolding set_idle move_to_idle
  to_idle-IsValid over = record {
    lists = move_to_idle-ListsExact s p h _ old v.lists over refl;
    mapped = write-Points s.host_map s.cell p h _ old same.ip same.port v.mapped;
  }

  keep-IsValid : IsValid (keep_host s p h')
  unfolding keep_host
  keep-IsValid = record {
    lists =
        keep_host-ListsExact s p h _ old v.lists same.overload (ground (arith, v.lists.stamped p));
    mapped = write-Points s.host_map s.cell p h _ old same.ip same.port v.mapped;
  }

  reset-IsValid : h.overload ≡ false → IsValid (keep_host s p (set_idle cfg later h'))
  unfolding keep_host set_idle
  reset-IsValid idle = record {
    lists = keep_host-ListsExact s p h _ old v.lists (sym idle) refl;
    mapped = write-Points s.host_map s.cell p h _ old same.ip same.port v.mapped;
  }

  expire-Returns : Returns IsValid (expire cfg now later p h' s)
  unfolding expire
  expire-Returns = ground (arith, v.lists.stamped p, keep-IsValid, reset-IsValid, to_idle-IsValid)

  settle-Returns : Returns IsValid (settle cfg now later retcode p h' s)
  unfolding settle
  settle-Returns = ground (arith, expire-Returns, to_overload-IsValid, to_idle-IsValid)

report-Returns :
    (cfg : Config) (now later ip port retcode : ℕ) (s : LoadBalance)
    → IsValid s
    → Returns IsValid (report cfg now later ip port retcode s)
unfolding report
report-Returns cfg now later ip port retcode s v =
    elim (Option-cases (lookup (pair_key ip port) s.host_map)) [
      | inl missing ↦ rw (missing, report) v
      | inr (p, found) ↦ elim (Option-cases (s.cell p)) [
        | inl freed ↦ ground (arith, v.mapped.keyed (pair_key ip port) p found)
        | inr (h, old) ↦
            rw (found, report)
              (rw old (
                settle-Returns cfg now later retcode s p h (count_result retcode h) old v
                  (count_result-SameHost retcode h)))
      ]
    ]

-- A report on a well-formed load_balance never faults, and leaves it well formed.
pub report-IsValid :
    (cfg : Config) (now later ip port retcode : ℕ) (s : LoadBalance)
    → IsValid s
    → (s' : LoadBalance) × (report cfg now later ip port retcode s ≡ ok s') × IsValid s'
report-IsValid cfg now later ip port retcode s v =
    Returns-ok IsValid _ (report-Returns cfg now later ip port retcode s v)
