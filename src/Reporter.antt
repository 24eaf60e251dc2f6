-- ===== src/Reporter.antt =====
-- lars_reporter: the reports of the agents are handed to store threads in turn
-- (lars_reporter/src/reporter_service.cpp), which write them to the table ServerCallStatus
-- (store_thread.cpp, store_report.cpp). The messages are parsed.
pub mod Turns
pub mod Race
pub mod Stored
mod Tests
use lars.Base.{
  ℕ, zero, suc, ◌+◌, ◌%◌, Bool, true, false, ◌&&◌, List, [], ◌∷◌, ◌++◌, Option, none, some,
  if◌then◌else◌, ltb, ◌==◌, get_or, Result, ok, fault, ◌>>=◌, out_of_bounds,
}
use lars.Agent.Messages.{ReportStatusRequest, HostCallResult}

-- `index` is the static variable of `get_report_status`.
pub record Reporter : Type 0 where
  pub index : ℕ
  pub thread_cnt : ℕ
  pub queues : List (List ReportStatusRequest)

unfoldable pub new_queues : ℕ → List (List ReportStatusRequest)
new_queues zero = []
new_queues (suc n) = [] ∷ new_queues n

-- `create_report_threads`, with the number of the configuration.
unfoldable pub create_report_threads : ℕ → Reporter
unfolding new_queues
create_report_threads thread_cnt = record {
  index = 0;
  thread_cnt = thread_cnt;
  queues = new_queues thread_cnt;
}

-- `reportQueues[index]->send(req)`.
unfoldable pub send_at :
    ℕ
    → ReportStatusRequest
    → List (List ReportStatusRequest)
    → Result (List (List ReportStatusRequest))
send_at i req [] = fault out_of_bounds
send_at zero req (q ∷ qs) = ok ((q ++ req ∷ []) ∷ qs)
send_at (suc i) req (q ∷ qs) = send_at i req qs >>= λ qs'. ok (q ∷ qs')

-- The three statements of `get_report_status` on the shared variables: the handler has no lock.
unfoldable pub send_report : ReportStatusRequest → Reporter → Result Reporter
unfolding send_at
send_report req s = send_at s.index req s.queues >>= λ qs. ok (record s { queues = qs })

unfoldable pub next_index : Reporter → Reporter
next_index s = record s { index = s.index + 1 }

unfoldable pub wrap_index : Reporter → Reporter
wrap_index s = record s { index = s.index % s.thread_cnt }

unfoldable pub get_report_status : ReportStatusRequest → Reporter → Result Reporter
unfolding send_report next_index wrap_index
get_report_status req s = send_report req s >>= λ s'. ok (wrap_index (next_index s'))

-- The key of a row of ServerCallStatus (base/sql/lars_dns.sql), and its other columns.
pub record RowKey : Type 0 where
  pub modid : ℕ
  pub cmdid : ℕ
  pub ip : ℕ
  pub port : ℕ
  pub caller : ℕ

pub record CallStatus : Type 0 where
  pub succ_cnt : ℕ
  pub err_cnt : ℕ
  pub ts : ℕ
  pub overload : Bool

abbrev pub row_key : ReportStatusRequest → HostCallResult → RowKey
row_key req r = record {
  modid = req.modid;
  cmdid = req.cmdid;
  ip = r.ip;
  port = r.port;
  caller = req.caller;
}

abbrev pub call_status : ReportStatusRequest → HostCallResult → CallStatus
call_status req r = record {
  succ_cnt = r.succ;
  err_cnt = r.err;
  ts = req.ts;
  overload = r.overload;
}

-- The database; `query` is the INSERT … ON DUPLICATE KEY UPDATE of a row, `none` for an error, which
-- is printed.
module _ {Db : Type 0} (query : RowKey → CallStatus → Db → Option Db) where
  unfoldable pub store_results : ReportStatusRequest → List HostCallResult → Db → Db
  store_results req [] db = db
  store_results req (r ∷ rs) db =
      store_results req rs (get_or (query (row_key req r) (call_status req r) db) db)

  unfoldable pub store : ReportStatusRequest → Db → Db
  unfolding store_results
  store req db = store_results req req.results db

  -- `thread_report`, on what `recv` takes out of the queue.
  unfoldable pub thread_report : List ReportStatusRequest → Db → Db
  unfolding store
  thread_report [] db = db
  thread_report (req ∷ reqs) db = thread_report reqs (store req db)
