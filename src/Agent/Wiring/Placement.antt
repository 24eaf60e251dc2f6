-- ===== src/Agent/Wiring/Placement.antt =====
-- Histories of the agent: requests of lars_api, answers of the DNS service, new connections. Both
-- sides choose a route_lb by `(modid + cmdid) % 3`, lars_api in api/cpp/lars_api/lars_api.cpp.
pub mod Safety
use lars.Base.{
  ℕ, ◌<◌, ◌^◌, ◌≡◌, sym, ◌∙◌, true, List, [], ◌∷◌, Result, ok, ◌>>=◌, IfOk, >>=-IfOk, of_IfOk, ◌==◌,
  arith, Bool-cases, inl, inr, ltb,
}
use lars.Base.Dict.{lookup}
use lars.Base.Words.{pair_key, pair_key-injective}
use lars.Agent.Config.{Config}
use lars.Agent.Messages.{
  GetHostRequest, GetHostResponse, GetRouteRequest, GetRouteResponse, ReportRequest,
}
use lars.Agent.RouteLb.{RouteLb, new_route_lb, update_host, get_host, get_route, report_host}
use lars.Agent.RouteLb.Keys.{
  Within, has_module, get_host-Within, get_route-Within, report_host-Within, update_host-Within,
  has_module-reset_lb_status,
}
use lars.Agent.Wiring.{
  Agent, shard, set_lb, start_agent, get_host_cb, get_route_cb, report_cb, deal_recv_route,
  new_dns_request, new_report_request, conn_init, host_response, route_response,
}

-- What reaches the agent, with the readings of the clock.
pub data Event : Type 0 where
  host_request : ℕ → GetHostRequest → Event
  route_request : ℕ → GetRouteRequest → Event
  report_request : ℕ → ℕ → ℕ → ReportRequest → Event
  route_answer : ℕ → ℕ → GetRouteResponse → Event
  dns_connected dns_flush report_flush : Event

-- One event; lars_api picks the UDP server.
unfoldable pub handle : Config → Event → Agent → Result Agent
handle cfg (host_request now req) s = do
  i ← shard req.modid req.cmdid
  o ← get_host_cb cfg now i req s
  ok o.1
handle cfg (route_request now req) s = do
  i ← shard req.modid req.cmdid
  o ← get_route_cb cfg now i req s
  ok o.1
handle cfg (report_request now later last req) s = do
  i ← shard req.modid req.cmdid
  report_cb cfg now later last i req s
handle cfg (route_answer now later rsp) s = deal_recv_route cfg now later rsp s
handle cfg dns_connected s = ok (conn_init s)
handle cfg dns_flush s = ok (new_dns_request s).1
handle cfg report_flush s = ok (new_report_request s).1

unfoldable pub handle_all : Config → List Event → Agent → Result Agent
unfolding handle
handle_all cfg [] s = ok s
handle_all cfg (e ∷ es) s = do s' ← handle cfg e s; handle_all cfg es s'

-- A module's ids are `int`s.
abbrev pub Fits : Event → Type 0
Fits (host_request now req) = (req.modid < 2 ^ 32) × (req.cmdid < 2 ^ 32)
Fits (route_request now req) = (req.modid < 2 ^ 32) × (req.cmdid < 2 ^ 32)
Fits (report_request now later last req) = (req.modid < 2 ^ 32) × (req.cmdid < 2 ^ 32)
Fits (route_answer now later rsp) = (rsp.modid < 2 ^ 32) × (rsp.cmdid < 2 ^ 32)
Fits dns_connected = Unit
Fits dns_flush = Unit
Fits report_flush = Unit

abbrev pub AllFit : List Event → Type 0
AllFit [] = Unit
AllFit (e ∷ es) = Fits e × AllFit es

-- Each module is in the route_lb that `shard` names.
abbrev pub Placed : Agent → Type 0
Placed s =
    (i m c : ℕ)
    → m < 2 ^ 32
    → c < 2 ^ 32
    → has_module (pair_key m c) (s.r_lb i) ≡ true
    → shard m c ≡ ok i

-- A route_lb that gains at most a module of its own is put back.
set_lb-Placed :
    (s : Agent) (i m c : ℕ) (r : RouteLb)
    → m < 2 ^ 32
    → c < 2 ^ 32
    → shard m c ≡ ok i
    → Within (pair_key m c) (s.r_lb i) r
    → Placed s
    → Placed (record s { r_lb = set_lb i r s.r_lb })
set_lb-Placed s i m c r hm hc own within placed j a b ha hb has = elim (Bool-cases (i == j)) [
  | inr other ↦ placed j a b ha hb (rw other at has)
  | inl here ↦
      let same : i ≡ j = ground arith in
      let within' = within (pair_key a b) (rw here at has) in
      elim (Bool-cases (pair_key m c == pair_key a b)) [
        | inl key ↦
            let ids = pair_key-injective m c a b hm hc ha hb (ground arith) in
            rw (sym ids.0, sym ids.1, sym same) own
        | inr key ↦ rw (sym same) (placed i a b ha hb (rw key at within'))
      ]
]

module _ (cfg : Config) (now i : ℕ) (s : Agent) (placed : Placed s) where
  get_host_cb-Placed :
      (req : GetHostRequest)
      → req.modid < 2 ^ 32
      → req.cmdid < 2 ^ 32
      → shard req.modid req.cmdid ≡ ok i
      → IfOk (λ o. Placed o.1) (get_host_cb cfg now i req s)
  unfolding get_host_cb
  get_host_cb-Placed req hm hc own =
      >>=-IfOk (λ (o : GetHostResponse × Agent). Placed o.1)
        (get_host cfg now req.modid req.cmdid (host_response req) (s.r_lb i)) _
        λ o e.
          set_lb-Placed s i req.modid req.cmdid o.state hm hc own
            (of_IfOk _ _
              (get_host-Within cfg now req.modid req.cmdid (host_response req) (s.r_lb i)) e)
            placed

  get_route_cb-Placed :
      (req : GetRouteRequest)
      → req.modid < 2 ^ 32
      → req.cmdid < 2 ^ 32
      → shard req.modid req.cmdid ≡ ok i
      → IfOk (λ o. Placed o.1) (get_route_cb cfg now i req s)
  unfolding get_route_cb
  get_route_cb-Placed req hm hc own =
      >>=-IfOk (λ (o : GetRouteResponse × Agent). Placed o.1)
        (get_route cfg now req.modid req.cmdid (route_response req) (s.r_lb i)) _
        λ o e.
          set_lb-Placed s i req.modid req.cmdid o.state hm hc own
            (of_IfOk _ _
              (get_route-Within cfg now req.modid req.cmdid (route_response req) (s.r_lb i)) e)
            placed

  report_cb-Placed :
      (later last : ℕ) (req : ReportRequest)
      → req.modid < 2 ^ 32
      → req.cmdid < 2 ^ 32
      → shard req.modid req.cmdid ≡ ok i
      → IfOk Placed (report_cb cfg now later last i req s)
  unfolding report_cb
  report_cb-Placed later last req hm hc own =
      >>=-IfOk Placed (report_host cfg now later last req (s.r_lb i)) _ λ o e.
        set_lb-Placed s i req.modid req.cmdid o.1 hm hc own
          (of_IfOk _ _ (report_host-Within cfg now later last req (s.r_lb i)) e) placed

deal_recv_route-Placed :
    (cfg : Config) (now later : ℕ) (rsp : GetRouteResponse) (s : Agent)
    → Placed s
    → rsp.modid < 2 ^ 32
    → rsp.cmdid < 2 ^ 32
    → IfOk Placed (deal_recv_route cfg now later rsp s)
unfolding deal_recv_route
deal_recv_route-Placed cfg now later rsp s placed hm hc =
    >>=-IfOk Placed (shard rsp.modid rsp.cmdid) _ λ i own.
      >>=-IfOk Placed (update_host cfg now later rsp.modid rsp.cmdid rsp (s.r_lb i)) _ λ r e.
        set_lb-Placed s i rsp.modid rsp.cmdid r hm hc own
          (of_IfOk _ _ (update_host-Within cfg now later rsp.modid rsp.cmdid rsp (s.r_lb i)) e)
          placed

conn_init-Placed : (s : Agent) → Placed s → Placed (conn_init s)
unfolding conn_init
conn_init-Placed s placed i m c hm hc has = placed i m c hm hc (elim (Bool-cases (ltb i 3)) [
  | inl near ↦ sym (has_module-reset_lb_status (pair_key m c) (s.r_lb i)) ∙ (rw near at has)
  | inr far ↦ rw far at has
])

handle-Placed :
    (cfg : Config) (e : Event) (s : Agent) → Fits e → Placed s → IfOk Placed (handle cfg e s)
unfolding handle new_dns_request new_report_request
handle-Placed cfg (host_request now req) s fits placed =
    >>=-IfOk Placed (shard req.modid req.cmdid) _ λ i own.
      >>=-IfOk Placed (get_host_cb cfg now i req s) _ λ o e.
        of_IfOk (λ o. Placed o.1) _ (get_host_cb-Placed cfg now i s placed req fits.0 fits.1 own) e
handle-Placed cfg (route_request now req) s fits placed =
    >>=-IfOk Placed (shard req.modid req.cmdid) _ λ i own.
      >>=-IfOk Placed (get_route_cb cfg now i req s) _ λ o e.
        of_IfOk (λ o. Placed o.1) _ (get_route_cb-Placed cfg now i s placed req fits.0 fits.1 own) e
handle-Placed cfg (report_request now later last req) s fits placed =
    >>=-IfOk Placed (shard req.modid req.cmdid) _
      λ i own. report_cb-Placed cfg now i s placed later last req fits.0 fits.1 own
handle-Placed cfg (route_answer now later rsp) s fits placed =
    deal_recv_route-Placed cfg now later rsp s placed fits.0 fits.1
handle-Placed cfg dns_connected s fits placed = conn_init-Placed s placed
handle-Placed cfg dns_flush s fits placed = placed
handle-Placed cfg report_flush s fits placed = placed

handle_all-Placed :
    (cfg : Config) (es : List Event) (s : Agent)
    → AllFit es
    → Placed s
    → IfOk Placed (handle_all cfg es s)
unfolding handle_all
handle_all-Placed cfg [] s fits placed = placed
handle_all-Placed cfg (e ∷ es) s fits placed = >>=-IfOk Placed (handle cfg e s) _ λ s' ran.
    handle_all-Placed cfg es s' fits.1 (of_IfOk Placed _ (handle-Placed cfg e s fits.0 placed) ran)

start_agent-Placed : Placed start_agent
unfolding start_agent new_route_lb lookup
start_agent-Placed i m c hm hc has = ground arith

-- In every history of the agent that returns, in which ids are `int`s and which begins when `main` has
-- made the queues, with no request before: a module
-- is in the table of a route_lb only if it is the one that lars_api sends the module's requests to
-- and that the module's answers are brought to, so that no module is in two of them.
pub handle_all-shard :
    (cfg : Config) (es : List Event) (i m c : ℕ) {s : Agent}
    → AllFit es
    → handle_all cfg es start_agent ≡ ok s
    → m < 2 ^ 32
    → c < 2 ^ 32
    → has_module (pair_key m c) (s.r_lb i) ≡ true
    → shard m c ≡ ok i
handle_all-shard cfg es i m c {s} fits ran hm hc has =
    of_IfOk Placed _ (handle_all-Placed cfg es start_agent fits start_agent-Placed) ran i m c hm hc
      has
