-- ===== src/Agent/Tests.antt =====
-- The agent on small inputs.
use lars.Base.{
  ℕ, suc, ◌*◌, ◌≡◌, refl, true, false, List, [], ◌∷◌, none, some, ok, fault, use_after_free, ltb,
  length, get_ok, of_ok, arith, is_ok, ◌≤◌, ◌+◌, if◌then◌else◌, ◌==◌, ◌++◌,
}
use lars.Base.Dict.{lookup, insert}
use lars.Base.Sets.{contains, insert_sorted}
use lars.Base.Words.{pair_key}
use lars.Agent.Config.{Config}
use lars.Agent.Messages.{HostAddr, GetHostResponse, GetRouteResponse, ret_succ}
use lars.Agent.HostInfo.{HostInfo, new_host}
use lars.Agent.LoadBalance.{
  LoadBalance, new_load_balance, choice_one_host, get_host_from_list, empty,
}
use lars.Agent.LoadBalance.Valid.{IsValid, new_load_balance-IsValid}
use lars.Agent.LoadBalance.Choice.{Answer, choice-IsValid}
use lars.Agent.LoadBalance.Rotation.{serve, served_from, refused_then, round_robin, probe_rhythm}
use lars.Agent.LoadBalance.Report.{report}
use lars.Agent.LoadBalance.Report.Keeps.{report-IsValid}
use lars.Agent.LoadBalance.Update.{update, remote_keys, need_delete}
use lars.Agent.LoadBalance.Update.Refresh.{
  Updated, Stale-of_valid, update-Updated, update-IsValid, dropped_host,
}
use lars.Agent.RouteLb.{new_route_lb, get_host, update_host}
use lars.Agent.Wiring.Placement.Safety.{ReadyAll, Sound, handle_all-returns}
use lars.Agent.RouteLb.History.{Call, hosts, answers, run, released, run-asks}
use lars.Agent.Messages.{GetHostRequest}
use lars.Agent.LoadBalance.{pull}
use lars.Agent.Wiring.{Agent, shard, start_agent, get_host_cb, deal_recv_route}
use lars.Agent.Wiring.Placement.{Event, host_request, route_answer, handle_all, handle_all-shard}
use lars.Agent.Wiring.FirstRequest.{Introduced, first_request}
use lars.Agent.Wiring.Startup.{
  arrives, makes_report_queue, makes_dns_queue, run_moments, udp_started, run_moments-early,
}
use lars.Base.{null_pointer}

abbrev cfg : Config
cfg = record {
  probe_num = 2;
  init_succ_cnt = 180;
  init_err_cnt = 5;
  err_rate = λ count total. ltb total (10 * count);
  succ_rate = λ count total. ltb (95 * total) (100 * count);
  contin_err_limit = 15;
  contin_succ_limit = 15;
  idle_timeout = 15;
  overload_timeout = 15;
  update_timeout = 15;
}

abbrev host_a : HostAddr
host_a = record { ip = 10; port = 80 }

abbrev host_b : HostAddr
host_b = record { ip = 11; port = 80 }

abbrev both_hosts : GetRouteResponse
both_hosts = record { modid = 1; cmdid = 2; host = host_a ∷ host_b ∷ [] }

abbrev first_host : GetRouteResponse
first_host = record { modid = 1; cmdid = 2; host = host_a ∷ [] }

abbrev no_answer : GetHostResponse
no_answer = record {
  seq = 7;
  modid = 1;
  cmdid = 2;
  retcode = 0;
  host = record { ip = 0; port = 0 };
}

abbrev fresh_lb : LoadBalance
fresh_lb = new_load_balance 1 2 0

-- The load_balance after an answer with both hosts, and after a second one with the first only.
abbrev filled : LoadBalance
filled = get_ok fresh_lb (update cfg 100 100 both_hosts fresh_lb)

update-filled : update cfg 100 100 both_hosts fresh_lb ≡ ok filled
unfolding update new_load_balance remote_keys lookup contains pair_key need_delete insert
    insert_sorted
update-filled = refl

update-IsValid_example :
    (s' : LoadBalance) × (update cfg 100 100 both_hosts fresh_lb ≡ ok s') × IsValid s'
unfolding new_load_balance lookup
update-IsValid_example =
    update-IsValid cfg 100 100 both_hosts fresh_lb (new_load_balance-IsValid 1 2 0) refl
      (λ k h. ground arith)

filled-IsValid : IsValid filled
unfolding new_load_balance lookup
filled-IsValid =
    of_ok IsValid (update cfg 100 100 both_hosts fresh_lb) filled
      (update-IsValid cfg 100 100 both_hosts fresh_lb (new_load_balance-IsValid 1 2 0) refl
        (λ k h. ground arith))
      update-filled

choice-IsValid_example :
    (r : ℕ × GetHostResponse × LoadBalance) × (choice_one_host cfg filled no_answer ≡ ok r)
    × (Answer cfg filled no_answer r × IsValid r.2)
unfolding update new_load_balance remote_keys lookup contains pair_key need_delete insert
    insert_sorted
choice-IsValid_example = choice-IsValid cfg filled no_answer filled-IsValid refl

report-IsValid_example :
    (s' : LoadBalance) × (report cfg 101 101 10 80 1 filled ≡ ok s') × IsValid s'
report-IsValid_example = report-IsValid cfg 101 101 10 80 1 filled filled-IsValid

round_robin_example :
    serve cfg no_answer (length filled.idle_list) filled
    ≡ ok (served_from filled.cell filled.idle_list, filled)
unfolding update new_load_balance remote_keys lookup contains pair_key need_delete insert
    insert_sorted
round_robin_example = round_robin cfg no_answer filled filled-IsValid refl

-- One host, overloaded, in cell 5.
abbrev slow_host : HostInfo
slow_host = record (new_host 12 80 180 50) { overload = true; overload_ts = some 60 }

abbrev overloaded : LoadBalance
overloaded = record fresh_lb {
  host_map = (pair_key 12 80, 5) ∷ [];
  overload_list = 5 ∷ [];
  cell = λ p. if p == 5 then some slow_host else none;
  next_cell = 6;
}

probe_rhythm_example :
    serve cfg no_answer (suc 2) overloaded
    ≡ ok (
      refused_then no_answer.host 2 (ret_succ, record { ip = slow_host.ip; port = slow_host.port }),
      record overloaded { access_cnt = 0; overload_list = [] ++ 5 ∷ [] },
    )
unfolding new_load_balance
probe_rhythm_example = probe_rhythm cfg no_answer 2 5 [] slow_host overloaded refl refl refl refl

dropped_host_example :
    (s' : LoadBalance) × (update cfg 200 200 first_host filled ≡ ok s')
    × (report cfg 201 201 11 80 0 s' ≡ fault use_after_free)
    × (is_ok (update cfg 201 201 first_host s') ≡ false)
unfolding update new_load_balance remote_keys lookup contains pair_key need_delete insert
    insert_sorted
dropped_host_example =
    dropped_host cfg 200 200 11 80 first_host filled 201 201 0 first_host filled-IsValid refl refl
      refl refl

update-Updated_example :
    (s' : LoadBalance) × (update cfg 200 200 first_host filled ≡ ok s')
    × Updated (λ k. false) filled first_host.host s'
update-Updated_example =
    update-Updated (λ k. false) cfg 200 200 first_host filled filled-IsValid.lists
      (Stale-of_valid filled filled-IsValid) refl (λ k d. ground arith)

-- A route_lb with the one module.
-- Two requests for a new module, the answer, and a request long after it.
abbrev history : List Call
history =
    hosts 0 1 2 no_answer
    ∷ hosts 1 1 2 no_answer
    ∷ answers 2 2 1 2 both_hosts
    ∷ hosts 90 1 2 no_answer
    ∷ []

run-asks_example : 2 ≤ 1 + released (pair_key 1 2) history
unfolding run get_host update_host update choice_one_host new_route_lb new_load_balance empty
    remote_keys lookup contains pair_key need_delete insert insert_sorted get_host_from_list
run-asks_example = run-asks cfg 1 (pair_key 1 2) history refl

abbrev ask_1_2 : GetHostRequest
ask_1_2 = record { seq = 7; modid = 1; cmdid = 2 }

-- Two requests for a module, and its answer between them.
abbrev two_requests : List Event
two_requests =
    host_request 100 ask_1_2 ∷ route_answer 101 101 both_hosts ∷ host_request 102 ask_1_2 ∷ []

abbrev after_two : Agent
after_two = get_ok start_agent (handle_all cfg two_requests start_agent)

handle_all-after_two : handle_all cfg two_requests start_agent ≡ ok after_two
unfolding handle_all start_agent shard get_host_cb deal_recv_route new_route_lb get_host update_host
    lookup insert update choice_one_host get_host_from_list empty pair_key new_load_balance pull
    remote_keys contains need_delete insert_sorted
handle_all-after_two = refl

handle_all-shard_example : shard 1 2 ≡ ok 0
unfolding handle_all start_agent shard get_host_cb deal_recv_route new_route_lb get_host update_host
    lookup insert update choice_one_host get_host_from_list empty pair_key new_load_balance pull
    remote_keys contains need_delete insert_sorted
handle_all-shard_example =
    handle_all-shard cfg two_requests 0 1 2
      ((omega arith, omega arith), ((omega arith, omega arith), ((omega arith, omega arith), tt)))
      handle_all-after_two (omega arith) (omega arith) refl

-- A second answer finds the hosts of the first.
abbrev two_answers : List Event
two_answers =
    host_request 100 ask_1_2
    ∷ route_answer 101 101 both_hosts
    ∷ route_answer 102 102 both_hosts
    ∷ host_request 103 ask_1_2
    ∷ []

two_answers-ReadyAll : ReadyAll cfg two_answers start_agent
unfolding ReadyAll start_agent shard get_host_cb deal_recv_route new_route_lb get_host update_host
    lookup insert update choice_one_host get_host_from_list empty pair_key new_load_balance pull
    remote_keys contains need_delete insert_sorted
two_answers-ReadyAll = (
  (0, refl),
  (
    (0, refl, λ lb k there given known. ground arith),
    ((0, refl, λ lb k there given known. ground arith), ((0, refl), tt)),
  ),
)

handle_all-returns_example : (s : Agent) × (handle_all cfg two_answers start_agent ≡ ok s) × Sound s
handle_all-returns_example = handle_all-returns cfg two_answers two_answers-ReadyAll

first_request_example : Introduced cfg 100 101 102 0 ask_1_2 both_hosts start_agent
unfolding start_agent new_route_lb lookup shard
first_request_example =
    first_request cfg 100 101 102 0 1 2 7 (host_a ∷ host_b ∷ []) start_agent refl refl refl

run_moments-early_example :
    run_moments cfg
      (arrives (host_request 100 ask_1_2) ∷ makes_report_queue ∷ makes_dns_queue ∷ [])
      udp_started
    ≡ fault null_pointer
unfolding udp_started start_agent new_route_lb lookup shard
run_moments-early_example =
    run_moments-early cfg 100 0 ask_1_2 (makes_report_queue ∷ makes_dns_queue ∷ []) udp_started refl
      refl refl
