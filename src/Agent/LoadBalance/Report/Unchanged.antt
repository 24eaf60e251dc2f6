-- ===== src/Agent/LoadBalance/Report/Unchanged.antt =====
-- What `report` leaves alone.
use lars.Base.{ℕ, ◌≡◌, ok, inl, inr, arith, Option-cases}
use lars.Base.Dict.{lookup}
use lars.Base.Words.{pair_key}
use lars.Agent.Config.{Config}
use lars.Agent.HostInfo.{HostInfo, count_result}
use lars.Agent.LoadBalance.{LoadBalance}
use lars.Agent.LoadBalance.Report.{report, settle}

-- The status and the entries stay.
abbrev pub Same : LoadBalance → LoadBalance → Type 0
Same s s' = (s'.status ≡ s.status) × (s'.host_map ≡ s.host_map)

settle-Same :
    (cfg : Config) (now later retcode p : ℕ) (h : HostInfo) (s : LoadBalance) {s' : LoadBalance}
    → settle cfg now later retcode p h s ≡ ok s'
    → Same s s'
unfolding settle
settle-Same cfg now later retcode p h s e = ground arith

-- A report neither asks the DNS service nor answers for it, and adds no host.
pub report-Same :
    (cfg : Config) (now later ip port retcode : ℕ) (s : LoadBalance) {s' : LoadBalance}
    → report cfg now later ip port retcode s ≡ ok s'
    → Same s s'
unfolding report
report-Same cfg now later ip port retcode s e =
    elim (Option-cases (lookup (pair_key ip port) s.host_map)) [
      | inl missing ↦ ground arith
      | inr (p, found) ↦ elim (Option-cases (s.cell p)) [
        | inl freed ↦ ground arith
        | inr (h, live) ↦
            settle-Same cfg now later retcode p (count_result retcode h) s
              (rw live at (rw (found, report) at e))
      ]
    ]

pub report-status :
    (cfg : Config) (now later ip port retcode : ℕ) (s : LoadBalance) {s' : LoadBalance}
    → report cfg now later ip port retcode s ≡ ok s'
    → s'.status ≡ s.status
report-status cfg now later ip port retcode s e = (report-Same cfg now later ip port retcode s e).0
