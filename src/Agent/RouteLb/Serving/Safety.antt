-- ===== src/Agent/RouteLb/Serving/Safety.antt =====
-- route_lb on load_balances that are well formed, with entries of different keys: `get_route` returns
-- too, and so does `update_host` with an answer that names every host of the module.
use lars.Base.{
  ℕ, ◌≡◌, subst, true, false, [], ◌∷◌, some, is_some, is_empty, inl, inr, Returns, ◌==◌, arith,
  Bool-cases, Option-cases,
}
use lars.Base.Dict.{Dict, lookup, lookup-erase}
use lars.Base.Sets.{contains}
use lars.Base.Words.{pair_key}
use lars.Agent.Config.{Config}
use lars.Agent.Messages.{GetRouteResponse}
use lars.Agent.LoadBalance.{LoadBalance, Status, fresh, empty}
use lars.Agent.LoadBalance.Update.{remote_keys}
use lars.Agent.LoadBalance.Healthy.{
  Healthy, new_load_balance-Healthy, choice-Healthy, report-Healthy, update-Healthy,
  get_all_hosts-Healthy,
}
use lars.Agent.RouteLb.{
  RouteLb, get_route, get_route_known, update_host, reset_lb_status, reset_all,
}
use lars.Agent.RouteLb.Serving.{Kept, All, store-All, refresh-P, add_module-All, status-IsValid}

abbrev pub AllHealthy : RouteLb → Type 0
AllHealthy r = All Healthy r

-- The hosts of the module are all in the answer, unless the answer has none.
abbrev pub NamesAll : ℕ → ℕ → GetRouteResponse → RouteLb → Type 0
NamesAll modid cmdid rsp r =
    (lb : LoadBalance) (k : ℕ)
    → lookup (pair_key modid cmdid) r.route_lb_map ≡ some lb
    → is_empty rsp.host ≡ false
    → is_some (lookup k lb.host_map) ≡ true
    → contains k (remote_keys rsp.host) ≡ true

status-Healthy : (lb : LoadBalance) (st : Status) → Healthy lb → Healthy (record lb { status = st })
status-Healthy lb st h = record { valid = status-IsValid lb st h.valid; unique = h.unique }

pub Healthy-Kept : Kept Healthy
unfolding empty
Healthy-Kept = record {
  valid = λ lb h. h.valid;
  added = new_load_balance-Healthy;
  restated = status-Healthy;
  chosen = choice-Healthy;
  reported = report-Healthy;
}

pub get_route-AllHealthy :
    (cfg : Config) (now modid cmdid : ℕ) (rsp : GetRouteResponse) (r : RouteLb)
    → AllHealthy r
    → Returns (λ o. AllHealthy o.state) (get_route cfg now modid cmdid rsp r)
unfolding get_route get_route_known
get_route-AllHealthy cfg now modid cmdid rsp r all =
    elim (Option-cases (lookup (pair_key modid cmdid) r.route_lb_map)) [
      | inl e ↦ rw (e, get_route) (add_module-All Healthy-Kept now modid cmdid r all)
      | inr (lb, e) ↦
          let (hosts, ran) = get_all_hosts-Healthy lb (all _ lb e) in
          rw (e, get_route)
            (rw ran (
              store-All Healthy-Kept (pair_key modid cmdid) _ r
                (refresh-P Healthy-Kept cfg now lb (all _ lb e)) all))
    ]

pub update_host-AllHealthy :
    (cfg : Config) (now later modid cmdid : ℕ) (rsp : GetRouteResponse) (r : RouteLb)
    → NamesAll modid cmdid rsp r
    → AllHealthy r
    → Returns AllHealthy (update_host cfg now later modid cmdid rsp r)
unfolding update_host
update_host-AllHealthy cfg now later modid cmdid rsp r named all =
    elim (Option-cases (lookup (pair_key modid cmdid) r.route_lb_map)) [
      | inl e ↦ rw (e, update_host) all
      | inr (lb, e) ↦ elim (Bool-cases (is_empty rsp.host)) [
        | inl gone ↦
            rw (e, gone, update_host)
              (λ j lb' there.
                all j lb' (ground (arith, lookup-erase (pair_key modid cmdid) j r.route_lb_map)))
        | inr given ↦
            let (lb', ran, h) =
              update-Healthy cfg now later rsp lb (all _ lb e) given λ k. named lb k e given in
            rw (e, given, update_host)
              (rw ran (store-All Healthy-Kept (pair_key modid cmdid) lb' r h all))
      ]
    ]

lookup-reset_all :
    (k : ℕ) (m : Dict LoadBalance) {lb : LoadBalance}
    → lookup k (reset_all m) ≡ some lb
    → (old : LoadBalance) × (lookup k m ≡ some old) × (record old { status = fresh } ≡ lb)
unfolding lookup reset_all
lookup-reset_all k [] e = ground arith
lookup-reset_all k ((a, old) ∷ m) e = elim (Bool-cases (a == k)) [
  | inl same ↦ (old, ground arith, ground arith)
  | inr other ↦
      let (lb, there, same) = lookup-reset_all k m (rw other at e) in (lb, ground arith, same)
]

pub reset_lb_status-AllHealthy : (r : RouteLb) → AllHealthy r → AllHealthy (reset_lb_status r)
unfolding reset_lb_status
reset_lb_status-AllHealthy r all k lb e =
    let (old, there, same) = lookup-reset_all k r.route_lb_map e in
    subst Healthy same (status-Healthy old fresh (all k old there))
