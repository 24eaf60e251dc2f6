-- ===== src/Agent/Wiring/FirstRequest.antt =====
-- A module's first request, its answer by the DNS service, and the request after it.
use lars.Base.{ℕ, ◌≡◌, sym, subst, ap, true, false, List, [], ◌∷◌, ◌++◌, none, ok, is_empty, arith}
use lars.Base.Dict.{lookup}
use lars.Base.Sets.{contains}
use lars.Base.Words.{pair_key}
use lars.Agent.Config.{Config}
use lars.Agent.Messages.{
  HostAddr, GetHostRequest, GetHostResponse, GetRouteResponse, ret_succ, ret_noexist,
}
use lars.Agent.LoadBalance.Update.{remote_keys}
use lars.Agent.RouteLb.{RouteLb, Served, get_host, update_host}
use lars.Agent.RouteLb.First.{get_host-asks, update_host-First, get_host-First}
use lars.Agent.Wiring.{
  Agent, shard, set_lb, get_host_cb, deal_recv_route, new_dns_request, host_response,
}

set_lb-same : (i : ℕ) (r : RouteLb) (lbs : ℕ → RouteLb) → set_lb i r lbs i ≡ r
set_lb-same i r lbs = ground arith

-- The steps, from what the route_lb does.
deal_recv_route-runs :
    (cfg : Config) (now later i : ℕ) (rsp : GetRouteResponse) (s : Agent) (r : RouteLb)
    → shard rsp.modid rsp.cmdid ≡ ok i
    → update_host cfg now later rsp.modid rsp.cmdid rsp (s.r_lb i) ≡ ok r
    → deal_recv_route cfg now later rsp s ≡ ok (record s { r_lb = set_lb i r s.r_lb })
unfolding deal_recv_route
deal_recv_route-runs cfg now later i rsp s r own ran = rw (deal_recv_route, own) (rw ran)

get_host_cb-runs :
    (cfg : Config) (now i : ℕ) (req : GetHostRequest) (s : Agent) (o : Served GetHostResponse)
    → get_host cfg now req.modid req.cmdid (host_response req) (s.r_lb i) ≡ ok o
    → get_host_cb cfg now i req s
      ≡ ok (o.rsp, record s { r_lb = set_lb i o.state s.r_lb; dns_queue = s.dns_queue ++ o.sent })
unfolding get_host_cb
get_host_cb-runs cfg now i req s o ran = rw (get_host_cb, ran)

-- What the three steps give: the first response, what goes to the DNS service, the second response.
pub record Introduced (cfg : Config) (now later t i : ℕ) (req : GetHostRequest)
    (rsp : GetRouteResponse) (s : Agent) : Type 0 where
  pub first : GetHostResponse × Agent
  pub first_ran : get_host_cb cfg now i req s ≡ ok first
  pub unknown : first.0.retcode ≡ ret_noexist
  pub asked :
      (new_dns_request first.1).0
      ≡ s.dns_queue ++ record { modid = req.modid; cmdid = req.cmdid } ∷ []
  pub answered : Agent
  pub answer_ran : deal_recv_route cfg later later rsp (new_dns_request first.1).1 ≡ ok answered
  pub second : GetHostResponse × Agent
  pub second_ran : get_host_cb cfg t i req answered ≡ ok second
  pub served : second.0.retcode ≡ ret_succ
  pub named : contains (pair_key second.0.host.ip second.0.host.port) (remote_keys rsp.host) ≡ true

-- A request for a module that its route_lb has not: the caller is told that it does not exist, and
-- the request joins what goes to the DNS service. After an answer with hosts, the next request is
-- served one of these hosts.
pub first_request :
    (cfg : Config) (now later t i modid cmdid seq : ℕ) (hosts : List HostAddr) (s : Agent)
    → shard modid cmdid ≡ ok i
    → lookup (pair_key modid cmdid) (s.r_lb i).route_lb_map ≡ none
    → is_empty hosts ≡ false
    → Introduced cfg now later t i
        (record { seq = seq; modid = modid; cmdid = cmdid })
        (record { modid = modid; cmdid = cmdid; host = hosts })
        s
unfolding new_dns_request
first_request cfg now later t i modid cmdid seq hosts s own missing given =
    let req : GetHostRequest = record { seq = seq; modid = modid; cmdid = cmdid } in
    let rsp : GetRouteResponse = record { modid = modid; cmdid = cmdid; host = hosts } in
    let (o1, ran1, unknown, sent, found1) =
      get_host-asks cfg now modid cmdid (host_response req) (s.r_lb i) missing in
    let (r2, ran2, lb, found2, first) =
      update_host-First cfg later later now modid cmdid rsp o1.state found1 given in
    let (o3, ran3, served, named) =
      get_host-First cfg t modid cmdid hosts (host_response req) r2 lb found2 first in
    let s1 : Agent = record s { r_lb = set_lb i o1.state s.r_lb; dns_queue = [] } in
    let s2 : Agent = record s1 { r_lb = set_lb i r2 s1.r_lb } in
    record {
      first = (o1.rsp, record s { r_lb = s1.r_lb; dns_queue = s.dns_queue ++ o1.sent });
      first_ran = get_host_cb-runs cfg now i req s o1 ran1;
      unknown = unknown;
      asked = ap (λ sent. s.dns_queue ++ sent) sent;
      answered = s2;
      answer_ran = deal_recv_route-runs cfg later later i rsp s1 r2 own (
          subst (λ r. update_host cfg later later modid cmdid rsp r ≡ ok r2)
            (sym (set_lb-same i o1.state s.r_lb)) ran2);
      second = (o3.rsp, record s2 { r_lb = set_lb i o3.state s2.r_lb; dns_queue = o3.sent });
      second_ran = get_host_cb-runs cfg t i req s2 o3 (
          subst (λ r. get_host cfg t modid cmdid (host_response req) r ≡ ok o3)
            (sym (set_lb-same i r2 s1.r_lb)) ran3);
      served = served;
      named = named;
    }
