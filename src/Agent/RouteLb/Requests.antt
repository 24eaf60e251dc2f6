-- ===== src/Agent/RouteLb/Requests.antt =====
-- How often the DNS service is asked for a module.
use lars.Base.{
  ℕ, ◌+◌, ◌≤◌, ◌≡◌, refl, ap, Option, none, some, ok, inl, inr, IfOk, >>=-IfOk, if◌then◌else◌, ◌==◌,
  arith, Bool-cases, Option-cases, is_empty, length,
}
use lars.Base.Dict.{lookup, lookup-insert, lookup-erase}
use lars.Base.Words.{pair_key}
use lars.Agent.Config.{Config}
use lars.Agent.Messages.{GetHostResponse, GetRouteResponse, ReportRequest}
use lars.Agent.LoadBalance.{LoadBalance, fresh, pulling, empty, choice_one_host, get_all_hosts}
use lars.Agent.LoadBalance.Report.{report, commit}
use lars.Agent.LoadBalance.Report.Unchanged.{report-status}
use lars.Agent.LoadBalance.Update.{update}
use lars.Agent.RouteLb.{
  RouteLb, Served, update_host, get_host, get_host_known, get_route, get_route_known, report_host,
  refresh, add_module, store,
}

-- 1 while a request for the module is on its way, else 0.
abbrev pub waiting_at : Option LoadBalance → ℕ
waiting_at none = 0
waiting_at (some lb) = elim lb.status [ pulling ↦ 1 | fresh ↦ 0 ]

abbrev pub waiting : ℕ → RouteLb → ℕ
waiting k r = waiting_at (lookup k r.route_lb_map)

choice-status :
    (cfg : Config) (s : LoadBalance) (rsp : GetHostResponse) {c : ℕ × GetHostResponse × LoadBalance}
    → choice_one_host cfg s rsp ≡ ok c
    → c.2.status ≡ s.status
unfolding choice_one_host
choice-status cfg s rsp e = ground arith

refresh-waiting :
    (cfg : Config) (now : ℕ) (lb : LoadBalance)
    → waiting_at (some (refresh cfg now lb).1)
      ≡ waiting_at (some lb) + length (refresh cfg now lb).0
unfolding refresh
refresh-waiting cfg now lb = ground arith

waiting-store :
    (k j : ℕ) (lb : LoadBalance) (r : RouteLb)
    → waiting j (store k lb r) ≡ (if k == j then waiting_at (some lb) else waiting j r)
unfolding store
waiting-store k j lb r = ground (arith, lookup-insert k j lb r.route_lb_map)

store_accounts :
    (k n : ℕ) (lb : LoadBalance) (r : RouteLb)
    → waiting_at (some lb) ≡ waiting k r + n
    → (j : ℕ) → waiting j (store k lb r) ≡ waiting j r + (if k == j then n else 0)
store_accounts k n lb r e j = elim (Bool-cases (k == j)) [
  | inl same ↦
      let found : k ≡ j = ground arith in
      ground (arith, waiting-store k j lb r, ap (λ i. waiting i r) found)
  | inr other ↦ ground (arith, waiting-store k j lb r)
]

-- The module `k` waits for one more answer for each request sent; the others are left alone.
abbrev pub Accounts : {A : Type 0} → ℕ → RouteLb → Served A → Type 0
Accounts k r o = (j : ℕ) → waiting j o.state ≡ waiting j r + (if k == j then length o.sent else 0)

add_module-Accounts :
    (now modid cmdid : ℕ) (r : RouteLb)
    → lookup (pair_key modid cmdid) r.route_lb_map ≡ none
    → (j : ℕ)
    → waiting j (add_module now modid cmdid r).1
      ≡ waiting j r
        + (if pair_key modid cmdid == j then length (add_module now modid cmdid r).0 else 0)
unfolding add_module
add_module-Accounts now modid cmdid r e =
    store_accounts (pair_key modid cmdid) 1 _ r (rw e (omega arith))

get_host_known-Accounts :
    (cfg : Config) (now k : ℕ) (rsp : GetHostResponse) (lb : LoadBalance) (r : RouteLb)
    → lookup k r.route_lb_map ≡ some lb
    → IfOk (Accounts k r) (get_host_known cfg now k rsp lb r)
unfolding get_host_known
get_host_known-Accounts cfg now k rsp lb r found = elim (Bool-cases (empty lb)) [
  | inl e ↦ rw (e, get_host_known) (λ j. ground arith)
  | inr e ↦
      rw (e, get_host_known)
        (>>=-IfOk (Accounts k r) (choice_one_host cfg lb rsp) _ λ c ran.
          store_accounts k _ _ r
            (rw found (ground (arith, refresh-waiting cfg now c.2, choice-status cfg lb rsp ran))))
]

pub get_host-Accounts :
    (cfg : Config) (now modid cmdid : ℕ) (rsp : GetHostResponse) (r : RouteLb)
    → IfOk (Accounts (pair_key modid cmdid) r) (get_host cfg now modid cmdid rsp r)
unfolding get_host
get_host-Accounts cfg now modid cmdid rsp r =
    elim (Option-cases (lookup (pair_key modid cmdid) r.route_lb_map)) [
      | inl missing ↦ rw (missing, get_host) (add_module-Accounts now modid cmdid r missing)
      | inr (lb, found) ↦
          rw (found, get_host)
            (get_host_known-Accounts cfg now (pair_key modid cmdid) rsp lb r found)
    ]

get_route_known-Accounts :
    (cfg : Config) (now k : ℕ) (rsp : GetRouteResponse) (lb : LoadBalance) (r : RouteLb)
    → lookup k r.route_lb_map ≡ some lb
    → IfOk (Accounts k r) (get_route_known cfg now k rsp lb r)
unfolding get_route_known
get_route_known-Accounts cfg now k rsp lb r found =
    >>=-IfOk (Accounts k r) (get_all_hosts lb) _
      λ hosts ran. store_accounts k _ _ r (rw found (refresh-waiting cfg now lb))

pub get_route-Accounts :
    (cfg : Config) (now modid cmdid : ℕ) (rsp : GetRouteResponse) (r : RouteLb)
    → IfOk (Accounts (pair_key modid cmdid) r) (get_route cfg now modid cmdid rsp r)
unfolding get_route
get_route-Accounts cfg now modid cmdid rsp r =
    elim (Option-cases (lookup (pair_key modid cmdid) r.route_lb_map)) [
      | inl missing ↦ rw (missing, get_route) (add_module-Accounts now modid cmdid r missing)
      | inr (lb, found) ↦
          rw (found, get_route)
            (get_route_known-Accounts cfg now (pair_key modid cmdid) rsp lb r found)
    ]

pub report_host-waiting :
    (cfg : Config) (now later last : ℕ) (req : ReportRequest) (r : RouteLb)
    → IfOk (λ o. (j : ℕ) → waiting j o.1 ≡ waiting j r) (report_host cfg now later last req r)
unfolding report_host
report_host-waiting cfg now later last req r =
    elim (Option-cases (lookup (pair_key req.modid req.cmdid) r.route_lb_map)) [
      | inl e ↦ rw (e, report_host) (λ j. refl)
      | inr (lb, e) ↦
          rw (e, report_host)
            (>>=-IfOk (λ o. (j : ℕ) → waiting j o.1 ≡ waiting j r)
              (report cfg now later req.host.ip req.host.port req.retcode lb) _
              λ lb' ran.
                >>=-IfOk (λ o. (j : ℕ) → waiting j o.1 ≡ waiting j r) (commit last lb') _
                  λ out sent j. ground (
                    arith,
                    store_accounts (pair_key req.modid req.cmdid) 0 lb' r
                        (rw e (
                          ground (
                            arith,
                            report-status cfg now later req.host.ip req.host.port req.retcode lb
                                ran,
                          )))
                        j,
                  ))
    ]

pub waiting-le-one : (o : Option LoadBalance) → waiting_at o ≤ 1
waiting-le-one o = ground arith

-- Only the answered module can stop to wait.
pub update_host-waiting :
    (cfg : Config) (now later modid cmdid : ℕ) (rsp : GetRouteResponse) (r : RouteLb)
    → IfOk
        (λ r'. (j : ℕ) → waiting j r ≤ waiting j r' + (if pair_key modid cmdid == j then 1 else 0))
        (update_host cfg now later modid cmdid rsp r)
unfolding update_host
update_host-waiting cfg now later modid cmdid rsp r =
    elim (Option-cases (lookup (pair_key modid cmdid) r.route_lb_map)) [
      | inl e ↦ rw (e, update_host) (λ j. omega arith)
      | inr (lb, e) ↦ elim (Bool-cases (is_empty rsp.host)) [
        | inl gone ↦
            rw (e, gone, update_host)
              (λ j. ground (
                arith,
                waiting-le-one (lookup j r.route_lb_map),
                lookup-erase (pair_key modid cmdid) j r.route_lb_map,
              ))
        | inr some_host ↦
            rw (e, some_host, update_host)
              (>>=-IfOk
                (λ r'.
                  (j : ℕ)
                  → waiting j r ≤ waiting j r' + (if pair_key modid cmdid == j then 1 else 0))
                (update cfg now later rsp lb) _
                λ lb' ran j. ground (
                  arith,
                  waiting-le-one (lookup j r.route_lb_map),
                  waiting-store (pair_key modid cmdid) j lb' r,
                ))
      ]
    ]
