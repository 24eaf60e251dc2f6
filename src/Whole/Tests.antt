-- ===== src/Whole/Tests.antt =====
-- The programs together, on a database with two hosts.
use lars.Base.{
  sym, ap, Bool, Bool-cases, inl, inr, get_or, ltb, ◌&&◌, ◌^◌, true, ◌*◌, ◌≡◌, refl, List, [], ◌∷◌,
  Option, none, some, ok, arith, get_ok, of_ok, if◌then◌else◌,
}
use lars.Base.Dict.{lookup, insert}
use lars.Base.Sets.{contains, insert_sorted}
use lars.Base.Words.{pair_key}
use lars.Agent.Config.{Config}
use lars.Agent.Messages.{GetHostRequest, GetRouteResponse, ReportRequest}
use lars.Agent.LoadBalance.{LoadBalance, new_load_balance, empty}
use lars.Agent.LoadBalance.Valid.{IsValid, new_load_balance-IsValid}
use lars.Agent.LoadBalance.Update.{update, remote_keys, need_delete}
use lars.Agent.LoadBalance.Update.Refresh.{update-IsValid}
use lars.Agent.RouteLb.{new_route_lb}
use lars.Agent.Wiring.{Agent, start_agent, shard}
use lars.Dns.Route.{Row, Route, Database, Checked, check_round}
use lars.Dns.Subscribe.{new_subscribe_list}
use lars.Dns.Service.{Conn}
use lars.Reporter.{RowKey, CallStatus}
use lars.Reporter.Stored.{same_key}
use lars.Whole.Routes.{Served, caller_gets_row}
use lars.Whole.Reports.{Fits}
use lars.Whole.Reports.Chain.{Recorded, report_cb-Recorded}

abbrev cfg : Config
cfg = record {
  probe_num = 10;
  init_succ_cnt = 180;
  init_err_cnt = 5;
  err_rate = λ count total. ltb total (10 * count);
  succ_rate = λ count total. ltb (95 * total) (100 * count);
  contin_err_limit = 15;
  contin_succ_limit = 15;
  idle_timeout = 15;
  overload_timeout = 15;
  update_timeout = 15;
}

abbrev two_rows : List Row
two_rows =
    record { modid = 1; cmdid = 2; ip = 10; port = 80 }
    ∷ record { modid = 1; cmdid = 2; ip = 11; port = 81 }
    ∷ []

abbrev database : Database
database = record { versions = some (5 ∷ []); routes = some two_rows; changes = λ v. some [] }

abbrev empty_route : Route
empty_route = record { data_map = []; temp_map = []; version = 0 }

abbrev agent_conn : Conn
agent_conn = record { fd = 7; param = some [] }

abbrev request : GetHostRequest
request = record { seq = 1; modid = 1; cmdid = 2 }

caller_gets_row_example :
    (c : Checked) × (check_round database 100 95 empty_route ≡ ok c)
    × Served cfg 200 201 202 0 request c.route agent_conn new_subscribe_list two_rows start_agent
unfolding start_agent new_route_lb lookup shard pair_key
caller_gets_row_example =
    caller_gets_row cfg database 100 95 5 [] two_rows [] empty_route agent_conn new_subscribe_list
      200 201 202 0 (pair_key 10 80) request start_agent refl refl refl refl
      ((omega arith, omega arith), ((omega arith, omega arith), tt)) refl refl refl

abbrev both_hosts : GetRouteResponse
both_hosts = record {
  modid = 1;
  cmdid = 2;
  host = record { ip = 10; port = 80 } ∷ record { ip = 11; port = 81 } ∷ [];
}

abbrev new_lb : LoadBalance
new_lb = new_load_balance 1 2 0

abbrev filled : LoadBalance
filled = get_ok new_lb (update cfg 100 100 both_hosts new_lb)

update-filled : update cfg 100 100 both_hosts new_lb ≡ ok filled
unfolding update new_load_balance remote_keys lookup contains pair_key need_delete insert
    insert_sorted
update-filled = refl

filled-IsValid : IsValid filled
unfolding new_load_balance lookup
filled-IsValid =
    of_ok IsValid (update cfg 100 100 both_hosts new_lb) filled
      (update-IsValid cfg 100 100 both_hosts new_lb (new_load_balance-IsValid 1 2 0) refl
        (λ k h. ground arith))
      update-filled

-- An agent that knows the module.
abbrev knowing : Agent
knowing = record {
  r_lb = λ i. record { id = i; route_lb_map = (pair_key 1 2, filled) ∷ [] };
  dns_queue = [];
  report_queue = [];
}

abbrev failed_call : ReportRequest
failed_call = record { modid = 1; cmdid = 2; host = record { ip = 10; port = 80 }; retcode = 1 }

-- A table as a function, and its query.
abbrev Table : Type 0
Table = RowKey → Option CallStatus

abbrev find_row : RowKey → Table → Option CallStatus
find_row k db = db k

-- The query keeps counts that fit and fails for others.
abbrev fit : CallStatus → Bool
fit r = ltb r.succ_cnt (2 ^ 31) && ltb r.err_cnt (2 ^ 31)

abbrev with_row : RowKey → CallStatus → Table → Table
with_row k r db j = if same_key k j then some r else db j

abbrev write_row : RowKey → CallStatus → Table → Option Table
write_row k r db = if fit r then some (with_row k r db) else none

write_row_lem :
    (k : RowKey) (r : CallStatus) (db db' : Table)
    → write_row k r db ≡ some db'
    → (j : RowKey) → find_row j db' ≡ (if same_key k j then some r else find_row j db)
write_row_lem k r db db' ran j = elim (Bool-cases (fit r)) [
  | inr big ↦ let no : none ≡ some db' = rw big at ran in absurd (ground arith)
  | inl small ↦
      let made : some (with_row k r db) ≡ some db' = rw small at ran in
      ap (λ (o : Option Table). get_or o db j) (sym made)
]

write_row-takes :
    (k : RowKey) (r : CallStatus) (db : Table)
    → Fits r
    → (db' : Table) × (write_row k r db ≡ some db')
write_row-takes k r db small = let e : fit r ≡ true = ground arith in (with_row k r db, rw e refl)

report_cb-Recorded_example :
    Recorded write_row find_row cfg 101 101 102 0 failed_call knowing (λ k. none)
unfolding lookup update new_load_balance remote_keys contains pair_key need_delete insert
    insert_sorted empty
report_cb-Recorded_example =
    report_cb-Recorded write_row find_row (λ r. r) write_row_lem (λ r small. refl) write_row-takes
      cfg 101 101 102 0 failed_call knowing filled (λ k. none) refl filled-IsValid refl
