-- ===== src/Agent/LoadBalance/Report/Commit.antt =====
-- What `commit` reports.
use lars.Base.{
  ℕ, ◌%◌, ◌^◌, ◌≡◌, refl, Bool, true, false, List, [], ◌∷◌, ◌++◌, Option, none, some, ok, inl, inr,
  if◌then◌else◌, arith, Bool-cases,
}
use lars.Agent.HostInfo.{HostInfo}
use lars.Agent.Messages.{HostCallResult, ReportStatusRequest}
use lars.Agent.LoadBalance.{LoadBalance, empty}
use lars.Agent.LoadBalance.Valid.{IsValid}
use lars.Agent.LoadBalance.Rotation.{AllLive, all_live}
use lars.Agent.LoadBalance.Report.{call_results, commit}

-- The counters of one live host.
abbrev pub result_at : Bool → Option HostInfo → List HostCallResult
result_at overload none = []
result_at overload (some h) =
    record { ip = h.ip; port = h.port; succ = h.rsucc; err = h.rerr; overload = overload } ∷ []

abbrev pub results_of : (ℕ → Option HostInfo) → Bool → List ℕ → List HostCallResult
results_of cell overload [] = []
results_of cell overload (p ∷ ps) = result_at overload (cell p) ++ results_of cell overload ps

call_results_lem :
    (s : LoadBalance) (overload : Bool) (ps : List ℕ)
    → AllLive s.cell ps
    → call_results s overload ps ≡ ok (results_of s.cell overload ps)
unfolding call_results
call_results_lem s overload [] live = refl
call_results_lem s overload (p ∷ ps) live = ground (arith, call_results_lem s overload ps live.1)

-- The request for a module: the idle hosts with flag false, then the overloaded ones with flag true.
abbrev pub status_of : ℕ → LoadBalance → ReportStatusRequest
status_of now s = record {
  modid = s.modid;
  cmdid = s.cmdid;
  caller = 127;
  results = results_of s.cell false s.idle_list ++ results_of s.cell true s.overload_list;
  ts = now % 2 ^ 32;
}

-- `commit` on a well-formed load_balance never faults. It sends nothing where `_host_map` is empty,
-- and otherwise one request with the counters of each host of the idle and of the overload list.
pub commit_lem :
    (now : ℕ) (s : LoadBalance)
    → IsValid s
    → commit now s ≡ ok (if empty s then none else some (status_of now s))
unfolding commit
commit_lem now s v = elim (Bool-cases (empty s)) [
  | inl e ↦ rw (e, commit)
  | inr e ↦
      rw (e, commit)
        (rw
          (call_results_lem s false s.idle_list
            (all_live s.cell s.idle_list (λ p n. ground (arith, v.lists.idle_exact p))))
          (rw (
            call_results_lem s true s.overload_list
              (all_live s.cell s.overload_list (λ p n. ground (arith, v.lists.overload_exact p))))))
]
