-- ===== src/Agent/RouteLb/First.antt =====
-- The first calls for a module: it is added, answered, and served from then on.
use lars.Base.{ℕ, ◌≡◌, refl, true, false, List, [], ◌∷◌, none, some, ok, is_empty, arith}
use lars.Base.Dict.{lookup, lookup-insert}
use lars.Base.Sets.{contains}
use lars.Base.Words.{pair_key}
use lars.Agent.Config.{Config}
use lars.Agent.Messages.{HostAddr, GetHostResponse, GetRouteResponse, ret_succ, ret_noexist}
use lars.Agent.LoadBalance.{LoadBalance, pulling, empty, pull, new_load_balance}
use lars.Agent.LoadBalance.Valid.{new_load_balance-IsValid}
use lars.Agent.LoadBalance.Update.{remote_keys}
use lars.Agent.LoadBalance.Update.First.{First, update-First, choice-First}
use lars.Agent.RouteLb.{RouteLb, Served, get_host, get_host_known, update_host, add_module, store}
use lars.Agent.RouteLb.Serving.{status-IsValid}

-- The load_balance of a module that was just added: it waits for its first answer.
unfoldable pub asked : ℕ → ℕ → ℕ → LoadBalance
unfolding pull new_load_balance
asked now modid cmdid = (pull (new_load_balance modid cmdid now)).1

lookup-store :
    (k : ℕ) (lb : LoadBalance) (r : RouteLb) → lookup k (store k lb r).route_lb_map ≡ some lb
unfolding store
lookup-store k lb r = ground (arith, lookup-insert k k lb r.route_lb_map)

pub get_host-asks :
    (cfg : Config) (now modid cmdid : ℕ) (rsp : GetHostResponse) (r : RouteLb)
    → lookup (pair_key modid cmdid) r.route_lb_map ≡ none
    → (o : Served GetHostResponse) × (get_host cfg now modid cmdid rsp r ≡ ok o)
      × (o.rsp.retcode ≡ ret_noexist)
      × (o.sent ≡ record { modid = modid; cmdid = cmdid } ∷ [])
      × (lookup (pair_key modid cmdid) o.state.route_lb_map ≡ some (asked now modid cmdid))
unfolding get_host add_module pull asked new_load_balance
get_host-asks cfg now modid cmdid rsp r missing =
    rw (missing, get_host)
      (_, refl, refl, refl, lookup-store (pair_key modid cmdid) (asked now modid cmdid) r)

pub update_host-First :
    (cfg : Config) (now later t modid cmdid : ℕ) (rsp : GetRouteResponse) (r : RouteLb)
    → lookup (pair_key modid cmdid) r.route_lb_map ≡ some (asked t modid cmdid)
    → is_empty rsp.host ≡ false
    → (r' : RouteLb) × (update_host cfg now later modid cmdid rsp r ≡ ok r')
      × (lb : LoadBalance) × (lookup (pair_key modid cmdid) r'.route_lb_map ≡ some lb)
      × First rsp.host lb
unfolding update_host asked pull new_load_balance
update_host-First cfg now later t modid cmdid rsp r found given =
    let (lb, ran, first) =
      update-First cfg now later rsp (asked t modid cmdid)
        (status-IsValid (new_load_balance modid cmdid t) pulling
          (new_load_balance-IsValid modid cmdid t))
        refl refl given in
    rw (found, given, update_host)
      (rw ran (_, refl, lb, lookup-store (pair_key modid cmdid) lb r, first))

pub get_host-First :
    (cfg : Config) (now modid cmdid : ℕ) (hosts : List HostAddr) (rsp : GetHostResponse)
    (r : RouteLb) (lb : LoadBalance)
    → lookup (pair_key modid cmdid) r.route_lb_map ≡ some lb
    → First hosts lb
    → (o : Served GetHostResponse) × (get_host cfg now modid cmdid rsp r ≡ ok o)
      × (o.rsp.retcode ≡ ret_succ)
      × (contains (pair_key o.rsp.host.ip o.rsp.host.port) (remote_keys hosts) ≡ true)
unfolding get_host get_host_known empty
get_host-First cfg now modid cmdid hosts rsp r lb found first =
    let (c, ran, good, listed) = choice-First cfg hosts lb rsp first in
    rw (found, get_host) (rw first.filled (rw ran (_, refl, good, listed)))
