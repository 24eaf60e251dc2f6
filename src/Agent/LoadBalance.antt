-- ===== src/Agent/LoadBalance.antt =====
-- class load_balance (lars_lb_agent/include/load_balance.h, src/load_balance.cpp): the hosts of one
-- module, split into an idle and an overload list. `host_info` objects stand in cells; a pointer is
-- the number of a cell, `delete` empties it, and a new object takes a cell never used before.
pub mod Report
pub mod Update
pub mod Valid
pub mod Choice
pub mod Rotation
pub mod Healthy
use lars.Base.{
  ℕ, ◌+◌, Bool, List, [], ◌∷◌, ◌++◌, Option, none, some, Result, ok, fault, ◌>>=◌, or_fault,
  use_after_free, empty_list, if◌then◌else◌, ◌==◌, leb, is_empty,
}
use lars.Base.Dict.{Dict}
use lars.Agent.Config.{Config}
use lars.Agent.HostInfo.{HostInfo}
use lars.Agent.Messages.{HostAddr, GetHostResponse, GetRouteRequest, ret_succ, ret_overload}

pub data Status : Type 0 where
  pulling fresh : Status

pub record LoadBalance : Type 0 where
  pub modid : ℕ
  pub cmdid : ℕ
  pub host_map : Dict ℕ
  pub idle_list : List ℕ
  pub overload_list : List ℕ
  pub access_cnt : ℕ
  pub status : Status
  pub last_update_time : ℕ
  pub cell : ℕ → Option HostInfo
  pub next_cell : ℕ

unfoldable pub new_load_balance : ℕ → ℕ → ℕ → LoadBalance
new_load_balance modid cmdid now = record {
  modid = modid;
  cmdid = cmdid;
  host_map = [];
  idle_list = [];
  overload_list = [];
  access_cnt = 0;
  status = fresh;
  last_update_time = now;
  cell = λ _. none;
  next_cell = 0;
}

abbrev pub write : (ℕ → Option HostInfo) → ℕ → Option HostInfo → ℕ → Option HostInfo
write cell p v q = if p == q then v else cell q

-- `*p`.
abbrev pub load : LoadBalance → ℕ → Result HostInfo
load s p = or_fault (s.cell p) use_after_free

unfoldable pub empty : LoadBalance → Bool
empty s = is_empty s.host_map

-- The request for `dns_queue`, and the new state.
unfoldable pub pull : LoadBalance → GetRouteRequest × LoadBalance
pull s = (record { modid = s.modid; cmdid = s.cmdid }, record s { status = pulling })

-- `get_host_from_list`: the front host goes into the response and to the back of the list.
unfoldable pub get_host_from_list :
    LoadBalance → GetHostResponse → List ℕ → Result (GetHostResponse × List ℕ)
get_host_from_list s rsp [] = fault empty_list
get_host_from_list s rsp (p ∷ rest) = do
  h ← load s p
  ok (record rsp { host = record { ip = h.ip; port = h.port } }, rest ++ p ∷ [])

choose_idle : LoadBalance → GetHostResponse → Result (ℕ × GetHostResponse × LoadBalance)
choose_idle s rsp = do
  r ← get_host_from_list s rsp s.idle_list
  ok (ret_succ, r.0, record s { idle_list = r.1 })

choose_overload : LoadBalance → GetHostResponse → Result (ℕ × GetHostResponse × LoadBalance)
choose_overload s rsp = do
  r ← get_host_from_list s rsp s.overload_list
  ok (ret_succ, r.0, record s { overload_list = r.1 })

-- `access_cnt` stays at `probe_num` or below, so that its increment does not wrap.
unfoldable pub choice_one_host :
    Config → LoadBalance → GetHostResponse → Result (ℕ × GetHostResponse × LoadBalance)
unfolding choose_idle choose_overload
choice_one_host cfg s rsp =
    if is_empty s.idle_list
    then if leb cfg.probe_num s.access_cnt
      then choose_overload (record s { access_cnt = 0 }) rsp
      else ok (ret_overload, rsp, record s { access_cnt = s.access_cnt + 1 })
    else if is_empty s.overload_list
    then choose_idle s rsp
    else if leb cfg.probe_num s.access_cnt
    then choose_overload (record s { access_cnt = 0 }) rsp
    else choose_idle (record s { access_cnt = s.access_cnt + 1 }) rsp

-- The body of the loop of `get_all_hosts` with the one of `route_lb::get_route`.
load_all : LoadBalance → Dict ℕ → Result (List HostAddr)
load_all s [] = ok []
load_all s ((k, p) ∷ m) = do
  h ← load s p
  rest ← load_all s m
  ok (record { ip = h.ip; port = h.port } ∷ rest)

unfoldable pub get_all_hosts : LoadBalance → Result (List HostAddr)
unfolding load_all
get_all_hosts s = load_all s s.host_map
