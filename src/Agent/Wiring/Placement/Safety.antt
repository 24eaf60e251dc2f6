-- ===== src/Agent/Wiring/Placement/Safety.antt =====
-- Histories in which the agent does not fault.
use lars.Base.{
  ℕ, ◌≡◌, List, [], ◌∷◌, ok, Returns, >>=-Returns, Returns-ok, IfOk, ◌==◌, arith, Bool-cases, inl,
  inr, ltb,
}
use lars.Base.Dict.{lookup}
use lars.Agent.Config.{Config}
use lars.Agent.Messages.{
  GetHostRequest, GetHostResponse, GetRouteRequest, GetRouteResponse, ReportRequest,
}
use lars.Agent.RouteLb.{
  RouteLb, Served, new_route_lb, update_host, get_host, get_route, report_host,
}
use lars.Agent.RouteLb.Serving.{get_host-All, report_host-All}
use lars.Agent.RouteLb.Serving.Safety.{
  AllHealthy, NamesAll, Healthy-Kept, get_route-AllHealthy, update_host-AllHealthy,
  reset_lb_status-AllHealthy,
}
use lars.Agent.Wiring.{
  Agent, shard, set_lb, start_agent, get_host_cb, get_route_cb, report_cb, deal_recv_route,
  new_dns_request, new_report_request, conn_init, host_response, route_response,
}
use lars.Agent.Wiring.Placement.{
  Event, host_request, route_request, report_request, route_answer, dns_connected, dns_flush,
  report_flush, handle, handle_all,
}

-- The ids have a route_lb; an answer has no hosts, or every host of the module.
abbrev pub Ready : Event → Agent → Type 0
Ready (host_request now req) s = (i : ℕ) × (shard req.modid req.cmdid ≡ ok i)
Ready (route_request now req) s = (i : ℕ) × (shard req.modid req.cmdid ≡ ok i)
Ready (report_request now later last req) s = (i : ℕ) × (shard req.modid req.cmdid ≡ ok i)
Ready (route_answer now later rsp) s =
    (i : ℕ) × (shard rsp.modid rsp.cmdid ≡ ok i) × NamesAll rsp.modid rsp.cmdid rsp (s.r_lb i)
Ready dns_connected s = Unit
Ready dns_flush s = Unit
Ready report_flush s = Unit

-- Each event is `Ready` in the state that it reaches.
unfoldable pub ReadyAll : Config → List Event → Agent → Type 0
unfolding handle
ReadyAll cfg [] s = Unit
ReadyAll cfg (e ∷ es) s = Ready e s × IfOk (ReadyAll cfg es) (handle cfg e s)

abbrev pub Sound : Agent → Type 0
Sound s = (i : ℕ) → AllHealthy (s.r_lb i)

set_lb-Sound :
    (s : Agent) (i : ℕ) (r : RouteLb)
    → AllHealthy r
    → Sound s
    → Sound (record s { r_lb = set_lb i r s.r_lb })
set_lb-Sound s i r h sound j = elim (Bool-cases (i == j)) [
  | inl here ↦ rw here h
  | inr other ↦ rw other (sound j)
]

module _ (cfg : Config) (now i : ℕ) (s : Agent) (sound : Sound s) where
  get_host_cb-Sound :
      (req : GetHostRequest) → Returns (λ o. Sound o.1) (get_host_cb cfg now i req s)
  unfolding get_host_cb
  get_host_cb-Sound req =
      >>=-Returns (λ (o : Served GetHostResponse). AllHealthy o.state)
        (λ (o : GetHostResponse × Agent). Sound o.1)
        (get_host cfg now req.modid req.cmdid (host_response req) (s.r_lb i)) _
        (get_host-All Healthy-Kept cfg now req.modid req.cmdid (host_response req) (s.r_lb i)
          (sound i))
        λ o h. set_lb-Sound s i o.state h sound

  get_route_cb-Sound :
      (req : GetRouteRequest) → Returns (λ o. Sound o.1) (get_route_cb cfg now i req s)
  unfolding get_route_cb
  get_route_cb-Sound req =
      >>=-Returns (λ (o : Served GetRouteResponse). AllHealthy o.state)
        (λ (o : GetRouteResponse × Agent). Sound o.1)
        (get_route cfg now req.modid req.cmdid (route_response req) (s.r_lb i)) _
        (get_route-AllHealthy cfg now req.modid req.cmdid (route_response req) (s.r_lb i) (sound i))
        λ o h. set_lb-Sound s i o.state h sound

  report_cb-Sound :
      (later last : ℕ) (req : ReportRequest) → Returns Sound (report_cb cfg now later last i req s)
  unfolding report_cb
  report_cb-Sound later last req =
      >>=-Returns (λ o. AllHealthy o.1) Sound (report_host cfg now later last req (s.r_lb i)) _
        (report_host-All Healthy-Kept cfg now later last req (s.r_lb i) (sound i))
        λ o h. set_lb-Sound s i o.1 h sound

deal_recv_route-Sound :
    (cfg : Config) (now later i : ℕ) (rsp : GetRouteResponse) (s : Agent)
    → shard rsp.modid rsp.cmdid ≡ ok i
    → NamesAll rsp.modid rsp.cmdid rsp (s.r_lb i)
    → Sound s
    → Returns Sound (deal_recv_route cfg now later rsp s)
unfolding deal_recv_route
deal_recv_route-Sound cfg now later i rsp s own named sound = rw own (
    >>=-Returns AllHealthy Sound (update_host cfg now later rsp.modid rsp.cmdid rsp (s.r_lb i)) _
      (update_host-AllHealthy cfg now later rsp.modid rsp.cmdid rsp (s.r_lb i) named (sound i))
      λ r h. set_lb-Sound s i r h sound)

conn_init-Sound : (s : Agent) → Sound s → Sound (conn_init s)
unfolding conn_init
conn_init-Sound s sound i = elim (Bool-cases (ltb i 3)) [
  | inl near ↦ rw near (reset_lb_status-AllHealthy (s.r_lb i) (sound i))
  | inr far ↦ rw far (sound i)
]

handle-Sound :
    (cfg : Config) (e : Event) (s : Agent) → Ready e s → Sound s → Returns Sound (handle cfg e s)
unfolding handle new_dns_request new_report_request
handle-Sound cfg (host_request now req) s (i, own) sound = rw own (
    >>=-Returns (λ o. Sound o.1) Sound (get_host_cb cfg now i req s) _
      (get_host_cb-Sound cfg now i s sound req) λ o h. h)
handle-Sound cfg (route_request now req) s (i, own) sound = rw own (
    >>=-Returns (λ o. Sound o.1) Sound (get_route_cb cfg now i req s) _
      (get_route_cb-Sound cfg now i s sound req) λ o h. h)
handle-Sound cfg (report_request now later last req) s (i, own) sound =
    rw own (report_cb-Sound cfg now i s sound later last req)
handle-Sound cfg (route_answer now later rsp) s (i, own, named) sound =
    deal_recv_route-Sound cfg now later i rsp s own named sound
handle-Sound cfg dns_connected s ready sound = conn_init-Sound s sound
handle-Sound cfg dns_flush s ready sound = sound
handle-Sound cfg report_flush s ready sound = sound

handle_all-Sound :
    (cfg : Config) (es : List Event) (s : Agent)
    → ReadyAll cfg es s
    → Sound s
    → Returns Sound (handle_all cfg es s)
unfolding handle_all ReadyAll
handle_all-Sound cfg [] s ready sound = sound
handle_all-Sound cfg (e ∷ es) s ready sound =
    let (s', ran, sound') =
      Returns-ok Sound (handle cfg e s) (handle-Sound cfg e s ready.0 sound) in
    rw ran (handle_all-Sound cfg es s' (rw ran at ready.1) sound')

start_agent-Sound : Sound start_agent
unfolding start_agent new_route_lb lookup
start_agent-Sound i k lb e = ground arith

-- A history of the agent that begins when `main` has made both queues, with no request before,
-- returns and leaves every load_balance well formed, when all ids have an index `(modid + cmdid) % 3` and each answer of the DNS service has no host or
-- names every host that the agent has for its module when the answer arrives.
pub handle_all-returns :
    (cfg : Config) (es : List Event)
    → ReadyAll cfg es start_agent
    → (s : Agent) × (handle_all cfg es start_agent ≡ ok s) × Sound s
handle_all-returns cfg es ready =
    Returns-ok Sound (handle_all cfg es start_agent)
      (handle_all-Sound cfg es start_agent ready start_agent-Sound)
