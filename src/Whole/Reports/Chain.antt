-- ===== src/Whole/Reports/Chain.antt =====
-- From a report of a caller to the rows that the reporter stores.
use lars.Base.{
  ℕ, ◌+◌, ◌≡◌, refl, ◌∙◌, ap, false, List, [], ◌∷◌, ◌++◌, Option, some, ok, if◌then◌else◌, is_empty,
  arith,
}
use lars.Base.Dict.{lookup, lookup-insert, insert}
use lars.Base.Words.{pair_key}
use lars.Agent.Config.{Config}
use lars.Agent.HostInfo.{HostInfo}
use lars.Agent.Messages.{ReportRequest, ReportStatusRequest}
use lars.Agent.LoadBalance.{LoadBalance, empty}
use lars.Agent.LoadBalance.Valid.{IsValid}
use lars.Agent.LoadBalance.Report.Keeps.{report-IsValid}
use lars.Agent.LoadBalance.Report.Unchanged.{report-Same}
use lars.Agent.LoadBalance.Report.Commit.{commit_lem, status_of}
use lars.Agent.RouteLb.{RouteLb, report_host}
use lars.Agent.Wiring.{Agent, set_lb, report_cb, new_report_request}
use lars.Reporter.{Reporter, RowKey, CallStatus, thread_report, store, create_report_threads}
use lars.Reporter.Turns.{receive_all, receive_all_lem, queue_at, share}
use lars.Reporter.Stored.{same_key}
use lars.Whole.Reports.{
  row_of, counts_of, Fits, store_results-says, AllSay-status_of, some_says-status_of,
}

-- What `report_host` does for a module with hosts.
report_host-known :
    (cfg : Config) (now later last : ℕ) (req : ReportRequest) (r : RouteLb) (lb : LoadBalance)
    → lookup (pair_key req.modid req.cmdid) r.route_lb_map ≡ some lb
    → IsValid lb
    → empty lb ≡ false
    → (r' : RouteLb) × (lb' : LoadBalance) × (report_host cfg now later last req r
        ≡ ok (status_of last lb' ∷ [], r'))
      × (lookup (pair_key req.modid req.cmdid) r'.route_lb_map ≡ some lb')
      × IsValid lb'
unfolding report_host empty
report_host-known cfg now later last req r lb there v filled =
    let (lb', ran, v') = report-IsValid cfg now later req.host.ip req.host.port req.retcode lb v in
    let same = report-Same cfg now later req.host.ip req.host.port req.retcode lb ran in
    let filled' : empty lb' ≡ false = ap is_empty same.1 ∙ filled in
    (
      record r { route_lb_map = insert (pair_key req.modid req.cmdid) lb' r.route_lb_map },
      lb',
      rw (there, report_host) (rw ran (rw (commit_lem last lb' v') (rw filled' refl))),
      ground (
        arith,
        lookup-insert (pair_key req.modid req.cmdid) (pair_key req.modid req.cmdid) lb'
            r.route_lb_map,
      ),
      v',
    )

share-one : (k : ℕ) (reqs : List ReportStatusRequest) → share 1 0 k reqs ≡ reqs
share-one k [] = refl
share-one k (req ∷ reqs) = ground (arith, share-one (k + 1) reqs)

thread_report-append :
    {Db : Type 0} (query : RowKey → CallStatus → Db → Option Db) (xs ys : List ReportStatusRequest)
    (db : Db)
    → thread_report query (xs ++ ys) db ≡ thread_report query ys (thread_report query xs db)
unfolding thread_report
thread_report-append query [] ys db = refl
thread_report-append query (x ∷ xs) ys db = thread_report-append query xs ys (store query x db)

-- The reports wait in the agent, are sent on, and come to a reporter with one store thread.
pub record Recorded {Db : Type 0} (query : RowKey → CallStatus → Db → Option Db)
    (find : RowKey → Db → Option CallStatus) (cfg : Config) (now later last i : ℕ)
    (req : ReportRequest) (s : Agent) (db : Db) : Type 0 where
  pub after : Agent
  pub ran : report_cb cfg now later last i req s ≡ ok after
  pub lb : LoadBalance
  pub found : lookup (pair_key req.modid req.cmdid) (after.r_lb i).route_lb_map ≡ some lb
  pub valid : IsValid lb
  pub reporter : Reporter
  pub received : receive_all (new_report_request after).0 (create_report_threads 1) ≡ ok reporter
  pub rows :
      (p : ℕ) (h : HostInfo)
      → lb.cell p ≡ some h
      → Fits (counts_of last h)
      → find (row_of lb h) (thread_report query (queue_at 0 reporter.queues) db)
        ≡ some (counts_of last h)

-- `find` reads a row. `kept` is what the columns keep of values that an INSERT gives them.
module _ {Db : Type 0} (query : RowKey → CallStatus → Db → Option Db)
    (find : RowKey → Db → Option CallStatus) (kept : CallStatus → CallStatus)
    (writes : (k : RowKey) (r : CallStatus) (db db' : Db)
      → query k r db ≡ some db'
      → (j : RowKey) → find j db' ≡ (if same_key k j then some (kept r) else find j db))
    (keeps : (r : CallStatus) → Fits r → kept r ≡ r)
    (takes : (k : RowKey) (r : CallStatus) (db : Db)
      → Fits r
      → (db' : Db) × (query k r db ≡ some db')) where
  -- A caller reports on a module that the agent has well formed and with hosts, whatever waits in the
  -- agent's queue already. Neither the agent nor the reporter's handling of the message faults, and the
  -- module stays well formed. What waits is sent on to a reporter with one store thread, which runs. An
  -- INSERT with counts below 2^31, which is what the columns hold, is to succeed and to leave these
  -- values; one with larger counts may fail or store something else. Then the row of every host that the
  -- agent has for the module, with both counts below 2^31 after the report, holds the host's counts and
  -- its state as they are after the report.
  pub report_cb-Recorded :
      (cfg : Config) (now later last i : ℕ) (req : ReportRequest) (s : Agent) (lb : LoadBalance)
      (db : Db)
      → lookup (pair_key req.modid req.cmdid) (s.r_lb i).route_lb_map ≡ some lb
      → IsValid lb
      → empty lb ≡ false
      → Recorded query find cfg now later last i req s db
  unfolding report_cb new_report_request thread_report store
  report_cb-Recorded cfg now later last i req s lb db there v filled =
      let (r', lb', ran, found, v') =
        report_host-known cfg now later last req (s.r_lb i) lb there v filled in
      let waiting = s.report_queue ++ status_of last lb' ∷ [] in
      let (rep, received, holds) = receive_all_lem waiting 1 (omega arith) in
      let q0 : queue_at 0 rep.queues ≡ waiting = holds 0 ∙ share-one 0 waiting in
      record {
        after = record s { r_lb = set_lb i r' s.r_lb; report_queue = waiting };
        ran = rw (ran, report_cb);
        lb = lb';
        found = ground (arith, found);
        valid = v';
        reporter = rep;
        received = received;
        rows = λ p h live fits.
            ap (λ q. find (row_of lb' h) (thread_report query q db)) q0
            ∙ ap (find (row_of lb' h))
                (thread_report-append query s.report_queue (status_of last lb' ∷ []) db)
            ∙ store_results-says query find kept writes keeps takes (row_of lb' h)
                (counts_of last h) fits (status_of last lb') (status_of last lb').results
                (thread_report query s.report_queue db) (AllSay-status_of last lb' v' p h live)
                (some_says-status_of last lb' v' p h live);
      }
