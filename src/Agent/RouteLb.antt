-- ===== src/Agent/RouteLb.antt =====
-- class route_lb (lars_lb_agent/src/route_lb.cpp): the load_balances of the modules, by key. A call
-- holds the mutex from its first to its last access, so calls are taken one after the other. What a
-- call puts into `dns_queue` and `report_queue` is part of its result.
pub mod Serving
pub mod Requests
pub mod History
pub mod Keys
pub mod First
pub mod Echo
use lars.Base.{
  ℕ, ◌+◌, Bool, true, false, ◌&&◌, List, [], ◌∷◌, ◌++◌, Option, to_list, none, some, Result, ok,
  ◌>>=◌, if◌then◌else◌, ltb, is_empty,
}
use lars.Base.Dict.{Dict, lookup, insert, erase}
use lars.Base.Words.{pair_key}
use lars.Agent.Config.{Config}
use lars.Agent.Messages.{
  GetHostResponse, GetRouteRequest, GetRouteResponse, ReportRequest, ReportStatusRequest, HostAddr,
  ret_succ, ret_noexist,
}
use lars.Agent.LoadBalance.{
  LoadBalance, Status, pulling, fresh, new_load_balance, empty, pull, choice_one_host,
  get_all_hosts,
}
use lars.Agent.LoadBalance.Report.{report, commit}
use lars.Agent.LoadBalance.Update.{update}

pub record RouteLb : Type 0 where
  pub id : ℕ
  pub route_lb_map : Dict LoadBalance

unfoldable pub new_route_lb : ℕ → RouteLb
new_route_lb id = record { id = id; route_lb_map = [] }

store : ℕ → LoadBalance → RouteLb → RouteLb
store k lb r = record r { route_lb_map = insert k lb r.route_lb_map }

-- `update_host`; an answer without hosts removes the module.
unfoldable pub update_host : Config → ℕ → ℕ → ℕ → ℕ → GetRouteResponse → RouteLb → Result RouteLb
unfolding store
update_host cfg now later modid cmdid rsp r = elim (lookup (pair_key modid cmdid) r.route_lb_map) [
  | none ↦ ok r
  | some lb ↦
      if is_empty rsp.host
      then ok (record r { route_lb_map = erase (pair_key modid cmdid) r.route_lb_map })
      else do lb' ← update cfg now later rsp lb; ok (store (pair_key modid cmdid) lb' r)
]

-- Is it time to ask the DNS service again?
is_due : Config → ℕ → LoadBalance → Bool
is_due cfg now lb = elim lb.status [
  | pulling ↦ false
  | fresh ↦ ltb (lb.last_update_time + cfg.update_timeout) now
]

-- The pull of a module whose table is old.
refresh : Config → ℕ → LoadBalance → List GetRouteRequest × LoadBalance
unfolding is_due pull
refresh cfg now lb = if is_due cfg now lb then ((pull lb).0 ∷ [], (pull lb).1) else ([], lb)

-- The branch for a module that is not in the map.
add_module : ℕ → ℕ → ℕ → RouteLb → List GetRouteRequest × RouteLb
unfolding store pull new_load_balance
add_module now modid cmdid r =
    let lb = new_load_balance modid cmdid now in
    ((pull lb).0 ∷ [], store (pair_key modid cmdid) (pull lb).1 r)

-- A call's return value, its response, what it puts into `dns_queue`, and the new state.
pub record Served (A : Type 0) : Type 0 where
  pub ret : ℕ
  pub rsp : A
  pub sent : List GetRouteRequest
  pub state : RouteLb

get_host_known :
    Config → ℕ → ℕ → GetHostResponse → LoadBalance → RouteLb → Result (Served GetHostResponse)
unfolding refresh store empty
get_host_known cfg now k rsp lb r =
    if empty lb
    then ok (record {
      ret = ret_succ;
      rsp = record rsp { retcode = ret_noexist };
      sent = [];
      state = r;
    })
    else do
      c ← choice_one_host cfg lb rsp
      let p = refresh cfg now c.2
      ok (record {
        ret = c.0;
        rsp = record c.1 { retcode = c.0 };
        sent = p.0;
        state = store k p.1 r;
      })

-- `now` is the reading of the clock.
unfoldable pub get_host :
    Config → ℕ → ℕ → ℕ → GetHostResponse → RouteLb → Result (Served GetHostResponse)
unfolding get_host_known add_module
get_host cfg now modid cmdid rsp r = elim (lookup (pair_key modid cmdid) r.route_lb_map) [
  | none ↦
      let p = add_module now modid cmdid r in
      ok (record {
        ret = ret_noexist;
        rsp = record rsp { retcode = ret_noexist };
        sent = p.0;
        state = p.1;
      })
  | some lb ↦ get_host_known cfg now (pair_key modid cmdid) rsp lb r
]

get_route_known :
    Config → ℕ → ℕ → GetRouteResponse → LoadBalance → RouteLb → Result (Served GetRouteResponse)
unfolding refresh store
get_route_known cfg now k rsp lb r = do
  hosts ← get_all_hosts lb
  let p = refresh cfg now lb
  ok (record {
    ret = ret_succ;
    rsp = record rsp { host = rsp.host ++ hosts };
    sent = p.0;
    state = store k p.1 r;
  })

unfoldable pub get_route :
    Config → ℕ → ℕ → ℕ → GetRouteResponse → RouteLb → Result (Served GetRouteResponse)
unfolding get_route_known add_module
get_route cfg now modid cmdid rsp r = elim (lookup (pair_key modid cmdid) r.route_lb_map) [
  | none ↦
      let p = add_module now modid cmdid r in
      ok (record { ret = ret_noexist; rsp = rsp; sent = p.0; state = p.1 })
  | some lb ↦ get_route_known cfg now (pair_key modid cmdid) rsp lb r
]

-- The requests for `report_queue`, and the new state. The clock is read three times.
unfoldable pub report_host :
    Config → ℕ → ℕ → ℕ → ReportRequest → RouteLb → Result (List ReportStatusRequest × RouteLb)
unfolding store
report_host cfg now later last req r = elim (lookup (pair_key req.modid req.cmdid) r.route_lb_map) [
  | none ↦ ok ([], r)
  | some lb ↦ do
    lb' ← report cfg now later req.host.ip req.host.port req.retcode lb
    out ← commit last lb'
    ok (to_list out, store (pair_key req.modid req.cmdid) lb' r)
]

reset_all : Dict LoadBalance → Dict LoadBalance
reset_all [] = []
reset_all ((k, lb) ∷ m) = (k, record lb { status = fresh }) ∷ reset_all m

unfoldable pub reset_lb_status : RouteLb → RouteLb
unfolding reset_all
reset_lb_status r = record r { route_lb_map = reset_all r.route_lb_map }
