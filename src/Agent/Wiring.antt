-- ===== src/Agent/Wiring.antt =====
-- The agent's three route_lbs and the callbacks that reach them: lars_lb_agent/src/main_server.cpp,
-- agent_udp_server.cpp, dns_client.cpp and report_client.cpp. UDP server `i` serves `r_lb[i]`; the
-- messages are parsed, and what a callback sends is part of its result. The two queues are there;
-- Startup is about the time before `main` has made them.
pub mod Placement
pub mod FirstRequest
pub mod Startup
pub mod Echo
use lars.Base.{
  ℕ, ◌+◌, ◌-◌, ◌%◌, ◌^◌, Bool, true, false, not, ◌&&◌, List, [], ◌∷◌, ◌++◌, if◌then◌else◌, ltb, leb,
  ◌==◌, Result, ok, fault, ◌>>=◌, out_of_bounds, signed_overflow,
}
use lars.Base.Words.{add32}
use lars.Agent.Config.{Config}
use lars.Agent.Messages.{
  HostAddr, GetRouteRequest, GetRouteResponse, GetHostRequest, GetHostResponse, ReportRequest,
  ReportStatusRequest,
}
use lars.Agent.RouteLb.{
  RouteLb, new_route_lb, get_host, get_route, report_host, update_host, reset_lb_status,
}

-- The sign of an `int` pattern, and whether the sum of two does not fit.
abbrev pub is_negative : ℕ → Bool
is_negative w = leb (2 ^ 31) w

abbrev pub overflows : ℕ → ℕ → Bool
overflows a b =
    if is_negative a
    then is_negative b && not (is_negative (add32 a b))
    else not (is_negative b) && is_negative (add32 a b)

-- `sum % 3` of an `int`, again as a pattern: the remainder has the sign of the sum.
abbrev pub remainder3 : ℕ → ℕ
remainder3 sum = if is_negative sum then (2 ^ 32 - (2 ^ 32 - sum) % 3) % 2 ^ 32 else sum % 3

-- `(modid + cmdid) % 3` as an index of an array of three.
unfoldable pub shard : ℕ → ℕ → Result ℕ
shard modid cmdid =
    let index = remainder3 (add32 modid cmdid) in
    if overflows modid cmdid
    then fault signed_overflow
    else if ltb index 3
    then ok index
    else fault out_of_bounds

pub record Agent : Type 0 where
  pub r_lb : ℕ → RouteLb
  pub dns_queue : List GetRouteRequest
  pub report_queue : List ReportStatusRequest

abbrev pub set_lb : ℕ → RouteLb → (ℕ → RouteLb) → ℕ → RouteLb
set_lb i r lbs j = if i == j then r else lbs j

-- `init_lb_agent`: the ids count from 1.
abbrev pub init_lb_agent : ℕ → RouteLb
init_lb_agent i = new_route_lb (i + 1)

-- The agent once `main` has made its two queues. It does so after it has started the UDP servers:
-- Startup is about what comes in between.
unfoldable pub start_agent : Agent
start_agent = record { r_lb = init_lb_agent; dns_queue = []; report_queue = [] }

-- The response before `get_host` fills it.
abbrev pub host_response : GetHostRequest → GetHostResponse
host_response req = record {
  seq = req.seq;
  modid = req.modid;
  cmdid = req.cmdid;
  retcode = 0;
  host = record { ip = 0; port = 0 };
}

abbrev pub route_response : GetRouteRequest → GetRouteResponse
route_response req = record { modid = req.modid; cmdid = req.cmdid; host = [] }

unfoldable pub get_host_cb :
    Config → ℕ → ℕ → GetHostRequest → Agent → Result (GetHostResponse × Agent)
get_host_cb cfg now i req s = do
  o ← get_host cfg now req.modid req.cmdid (host_response req) (s.r_lb i)
  ok (o.rsp, record s { r_lb = set_lb i o.state s.r_lb; dns_queue = s.dns_queue ++ o.sent })

unfoldable pub get_route_cb :
    Config → ℕ → ℕ → GetRouteRequest → Agent → Result (GetRouteResponse × Agent)
get_route_cb cfg now i req s = do
  o ← get_route cfg now req.modid req.cmdid (route_response req) (s.r_lb i)
  ok (o.rsp, record s { r_lb = set_lb i o.state s.r_lb; dns_queue = s.dns_queue ++ o.sent })

unfoldable pub report_cb : Config → ℕ → ℕ → ℕ → ℕ → ReportRequest → Agent → Result Agent
report_cb cfg now later last i req s = do
  o ← report_host cfg now later last req (s.r_lb i)
  ok (record s { r_lb = set_lb i o.1 s.r_lb; report_queue = s.report_queue ++ o.0 })

-- `deal_recv_route`: an answer of the DNS service.
unfoldable pub deal_recv_route : Config → ℕ → ℕ → GetRouteResponse → Agent → Result Agent
unfolding shard
deal_recv_route cfg now later rsp s = do
  i ← shard rsp.modid rsp.cmdid
  r ← update_host cfg now later rsp.modid rsp.cmdid rsp (s.r_lb i)
  ok (record s { r_lb = set_lb i r s.r_lb })

-- `new_dns_request` and `new_report_request`: what is sent on, in order.
unfoldable pub new_dns_request : Agent → List GetRouteRequest × Agent
new_dns_request s = (s.dns_queue, record s { dns_queue = [] })

unfoldable pub new_report_request : Agent → List ReportStatusRequest × Agent
new_report_request s = (s.report_queue, record s { report_queue = [] })

-- `conn_init`, when the DNS service is connected.
unfoldable pub conn_init : Agent → Agent
conn_init s = record s { r_lb = λ i. if ltb i 3 then reset_lb_status (s.r_lb i) else s.r_lb i }
