-- ===== src/Api/Tests.antt =====
-- The client on small inputs.
use lars.Base.{
  ℕ, ◌+◌, ◌*◌, ◌/◌, ◌%◌, ◌≡◌, ◌≢◌, refl, true, [], ◌∷◌, none, some, if◌then◌else◌, ◌==◌, ok, arith,
  get_ok, ltb,
}
use lars.Base.Dict.{lookup, insert}
use lars.Base.Words.{pair_key}
use lars.Agent.Config.{Config}
use lars.Agent.Messages.{GetHostResponse, ReportRequest, ret_succ}
use lars.Agent.RouteLb as route_lb
use lars.Agent.RouteLb.{new_route_lb}
use lars.Agent.LoadBalance.{new_load_balance, pull}
use lars.Agent.Wiring.{Agent, shard, start_agent, get_host_cb}
use lars.Api.{
  LarsClient, packet, returns, Asked, get_host, report, host_address, id_get_host_response,
}
use lars.Api.Matching.{get_host_lem, get_host-get_host_cb}
use lars.Api.Addresses.{report_lem}

-- Addresses as numbers, in place of text.
abbrev as_number : ℕ → ℕ
as_number a = a

-- The bytes of a word in the other order.
abbrev swap_bytes : ℕ → ℕ
swap_bytes a =
    a % 256 * 16777216 + a / 256 % 256 * 65536 + a / 65536 % 256 * 256 + a / 16777216 % 256

abbrev third_call : LarsClient
third_call = record { seqid = 2 }

abbrev late : GetHostResponse
late = record { seq = 1; modid = 1; cmdid = 2; retcode = 0; host = record { ip = 9; port = 9 } }

abbrev right : GetHostResponse
right = record { seq = 2; modid = 1; cmdid = 2; retcode = 0; host = record { ip = 10; port = 80 } }

get_host_lem_example :
    get_host as_number true
      (packet id_get_host_response (some late) ∷ packet id_get_host_response (some right) ∷ [])
      1
      2
      third_call
    ≡ ok (
      record { request = record { seq = 2; modid = 1; cmdid = 2 }; index = 0 },
      returns 0 (some (10, 80)),
      record { seqid = 3 },
    )
unfolding shard
get_host_lem_example =
    (get_host_lem as_number (late ∷ []) right [] 0 1 2 third_call refl (omega arith, tt)
        (omega arith)).0
      refl refl refl refl

abbrev cfg : Config
cfg = record {
  probe_num = 2;
  init_succ_cnt = 180;
  init_err_cnt = 5;
  err_rate = λ count total. ltb total (10 * count);
  succ_rate = λ count total. ltb (95 * total) (100 * count);
  contin_err_limit = 15;
  contin_succ_limit = 15;
  idle_timeout = 15;
  overload_timeout = 15;
  update_timeout = 15;
}

-- The agent's response to a request for a module that it does not know.
abbrev unknown : GetHostResponse × Agent
unknown =
    get_ok (late, start_agent)
      (get_host_cb cfg 100 0 (record { seq = 2; modid = 1; cmdid = 2 }) start_agent)

get_host_cb-unknown :
    get_host_cb cfg 100 0 (record { seq = 2; modid = 1; cmdid = 2 }) start_agent ≡ ok unknown
unfolding get_host_cb start_agent new_route_lb route_lb.get_host lookup pair_key new_load_balance
    pull insert
get_host_cb-unknown = refl

get_host-get_host_cb_example :
    get_host as_number true
      (packet id_get_host_response (some late) ∷ packet id_get_host_response (some unknown.0) ∷ [])
      1
      2
      third_call
    ≡ ok (
      record { request = record { seq = 2; modid = 1; cmdid = 2 }; index = 0 },
      returns unknown.0.retcode (
          if unknown.0.retcode == ret_succ
          then some (host_address as_number unknown.0.host)
          else none),
      record { seqid = 3 },
    )
unfolding shard
get_host-get_host_cb_example =
    get_host-get_host_cb as_number cfg 100 0 1 2 start_agent (late ∷ []) third_call refl
      get_host_cb-unknown (omega arith, tt)

report_lem_example :
    (report as_number 1 2 10 80 0
      ≡ ok (record {
        request = record {
          modid = 1;
          cmdid = 2;
          host = record { ip = 10; port = 80 };
          retcode = 0;
        };
        index = 0;
      }))
    × (swap_bytes 10 ≢ 10
        → (r : Asked ReportRequest) × (report as_number 1 2 (swap_bytes 10) 80 0 ≡ ok r)
          × (pair_key r.request.host.ip r.request.host.port ≢ pair_key 10 80))
unfolding shard
report_lem_example =
    report_lem as_number as_number swap_bytes (λ a l. refl) (λ a l. omega arith) 1 2 0 0
      (record { ip = 10; port = 80 }) refl (omega arith) (omega arith)
