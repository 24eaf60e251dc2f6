-- ===== src/Agent/RouteLb/Keys.antt =====
-- Which modules a call of route_lb can add.
use lars.Base.{
  ℕ, ◌≡◌, refl, Bool, true, ◌||◌, [], ◌∷◌, inl, inr, IfOk, >>=-IfOk, ◌==◌, arith, Bool-cases,
  Option-cases, is_some, is_empty,
}
use lars.Base.Dict.{Dict, lookup, lookup-insert, lookup-erase}
use lars.Base.Words.{pair_key}
use lars.Agent.Config.{Config}
use lars.Agent.Messages.{GetHostResponse, GetRouteResponse, ReportRequest}
use lars.Agent.LoadBalance.{LoadBalance, empty, choice_one_host, get_all_hosts}
use lars.Agent.LoadBalance.Report.{report, commit}
use lars.Agent.LoadBalance.Update.{update}
use lars.Agent.RouteLb.{
  RouteLb, update_host, get_host, get_host_known, get_route, get_route_known, report_host,
  reset_lb_status, reset_all, add_module, store,
}

abbrev pub has_module : ℕ → RouteLb → Bool
has_module k r = is_some (lookup k r.route_lb_map)

-- Every module of `r'` is the one of `key` or one of `r`.
abbrev pub Within : ℕ → RouteLb → RouteLb → Type 0
Within key r r' = (k : ℕ) → has_module k r' ≡ true → ((key == k) || has_module k r) ≡ true

store-Within : (key : ℕ) (lb : LoadBalance) (r : RouteLb) → Within key r (store key lb r)
unfolding store
store-Within key lb r k h = ground (arith, lookup-insert key k lb r.route_lb_map)

get_host_known-Within :
    (cfg : Config) (now k : ℕ) (rsp : GetHostResponse) (lb : LoadBalance) (r : RouteLb)
    → IfOk (λ o. Within k r o.state) (get_host_known cfg now k rsp lb r)
unfolding get_host_known
get_host_known-Within cfg now k rsp lb r = elim (Bool-cases (empty lb)) [
  | inl e ↦ rw (e, get_host_known) (λ j h. ground arith)
  | inr e ↦
      rw (e, get_host_known)
        (>>=-IfOk (λ o. Within k r o.state) (choice_one_host cfg lb rsp) _
          λ c ran. store-Within k _ r)
]

pub get_host-Within :
    (cfg : Config) (now modid cmdid : ℕ) (rsp : GetHostResponse) (r : RouteLb)
    → IfOk (λ o. Within (pair_key modid cmdid) r o.state) (get_host cfg now modid cmdid rsp r)
unfolding get_host add_module
get_host-Within cfg now modid cmdid rsp r =
    elim (Option-cases (lookup (pair_key modid cmdid) r.route_lb_map)) [
      | inl missing ↦ rw (missing, get_host) (store-Within (pair_key modid cmdid) _ r)
      | inr (lb, found) ↦
          rw (found, get_host) (get_host_known-Within cfg now (pair_key modid cmdid) rsp lb r)
    ]

pub get_route-Within :
    (cfg : Config) (now modid cmdid : ℕ) (rsp : GetRouteResponse) (r : RouteLb)
    → IfOk (λ o. Within (pair_key modid cmdid) r o.state) (get_route cfg now modid cmdid rsp r)
unfolding get_route get_route_known add_module
get_route-Within cfg now modid cmdid rsp r =
    elim (Option-cases (lookup (pair_key modid cmdid) r.route_lb_map)) [
      | inl missing ↦ rw (missing, get_route) (store-Within (pair_key modid cmdid) _ r)
      | inr (lb, found) ↦
          rw (found, get_route)
            (>>=-IfOk (λ o. Within (pair_key modid cmdid) r o.state) (get_all_hosts lb) _
              λ c ran. store-Within (pair_key modid cmdid) _ r)
    ]

pub report_host-Within :
    (cfg : Config) (now later last : ℕ) (req : ReportRequest) (r : RouteLb)
    → IfOk (λ o. Within (pair_key req.modid req.cmdid) r o.1) (report_host cfg now later last req r)
unfolding report_host
report_host-Within cfg now later last req r =
    elim (Option-cases (lookup (pair_key req.modid req.cmdid) r.route_lb_map)) [
      | inl missing ↦ rw (missing, report_host) (λ k h. ground arith)
      | inr (lb, found) ↦
          rw (found, report_host)
            (>>=-IfOk (λ o. Within (pair_key req.modid req.cmdid) r o.1)
              (report cfg now later req.host.ip req.host.port req.retcode lb) _
              λ lb' ran.
                >>=-IfOk (λ o. Within (pair_key req.modid req.cmdid) r o.1) (commit last lb') _
                  λ out sent. store-Within (pair_key req.modid req.cmdid) lb' r)
    ]

pub update_host-Within :
    (cfg : Config) (now later modid cmdid : ℕ) (rsp : GetRouteResponse) (r : RouteLb)
    → IfOk (Within (pair_key modid cmdid) r) (update_host cfg now later modid cmdid rsp r)
unfolding update_host
update_host-Within cfg now later modid cmdid rsp r =
    elim (Option-cases (lookup (pair_key modid cmdid) r.route_lb_map)) [
      | inl missing ↦ rw (missing, update_host) (λ k h. ground arith)
      | inr (lb, found) ↦ elim (Bool-cases (is_empty rsp.host)) [
        | inl gone ↦
            rw (found, gone, update_host)
              (λ k h. ground (arith, lookup-erase (pair_key modid cmdid) k r.route_lb_map))
        | inr given ↦
            rw (found, given, update_host)
              (>>=-IfOk (Within (pair_key modid cmdid) r) (update cfg now later rsp lb) _
                λ lb' ran. store-Within (pair_key modid cmdid) lb' r)
      ]
    ]

reset_all-lookup :
    (k : ℕ) (m : Dict LoadBalance) → is_some (lookup k (reset_all m)) ≡ is_some (lookup k m)
unfolding reset_all lookup
reset_all-lookup k [] = refl
reset_all-lookup k ((j, lb) ∷ m) = ground (arith, reset_all-lookup k m)

pub has_module-reset_lb_status :
    (k : ℕ) (r : RouteLb) → has_module k (reset_lb_status r) ≡ has_module k r
unfolding reset_lb_status
has_module-reset_lb_status k r = reset_all-lookup k r.route_lb_map
