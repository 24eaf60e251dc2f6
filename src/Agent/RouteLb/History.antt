-- ===== src/Agent/RouteLb/History.antt =====
-- Histories of calls: how many requests the DNS service gets for a module.
use lars.Base.{
  ℕ, ◌+◌, ◌≤◌, ◌≡◌, List, [], ◌∷◌, Result, ok, ◌>>=◌, IfOk, >>=-IfOk, of_IfOk, if◌then◌else◌, ◌==◌,
  arith, length,
}
use lars.Base.Dict.{lookup}
use lars.Base.Words.{pair_key}
use lars.Agent.Config.{Config}
use lars.Agent.Messages.{GetHostResponse, GetRouteResponse, ReportRequest}
use lars.Agent.RouteLb.{
  RouteLb, new_route_lb, update_host, get_host, get_route, report_host, reset_lb_status,
}
use lars.Agent.RouteLb.Requests.{
  waiting, get_host-Accounts, get_route-Accounts, report_host-waiting, update_host-waiting,
  waiting-le-one,
}

-- A call, with its readings of the clock.
pub data Call : Type 0 where
  hosts : ℕ → ℕ → ℕ → GetHostResponse → Call
  routes : ℕ → ℕ → ℕ → GetRouteResponse → Call
  reports : ℕ → ℕ → ℕ → ReportRequest → Call
  answers : ℕ → ℕ → ℕ → ℕ → GetRouteResponse → Call
  resets : Call

-- The requests that the call sends for the module `k`, and the state after it.
step : Config → ℕ → Call → RouteLb → Result (ℕ × RouteLb)
step cfg k (hosts now modid cmdid rsp) r = do
  o ← get_host cfg now modid cmdid rsp r
  ok ((if pair_key modid cmdid == k then length o.sent else 0), o.state)
step cfg k (routes now modid cmdid rsp) r = do
  o ← get_route cfg now modid cmdid rsp r
  ok ((if pair_key modid cmdid == k then length o.sent else 0), o.state)
step cfg k (reports now later last req) r = do o ← report_host cfg now later last req r; ok (0, o.1)
step cfg k (answers now later modid cmdid rsp) r = do
  r' ← update_host cfg now later modid cmdid rsp r
  ok (0, r')
step cfg k resets r = ok (0, reset_lb_status r)

-- The requests for the module `k` in a history, and the state after it.
unfoldable pub run : Config → ℕ → List Call → RouteLb → Result (ℕ × RouteLb)
unfolding step
run cfg k [] r = ok (0, r)
run cfg k (c ∷ cs) r = do o ← step cfg k c r; rest ← run cfg k cs o.1; ok (o.0 + rest.0, rest.1)

-- How often the module `k` is answered, or all modules are reset by a new connection.
abbrev pub released_by : ℕ → Call → ℕ
released_by k (answers now later modid cmdid rsp) = if pair_key modid cmdid == k then 1 else 0
released_by k resets = 1
released_by k _ = 0

abbrev pub released : ℕ → List Call → ℕ
released k [] = 0
released k (c ∷ cs) = released_by k c + released k cs

abbrev Balanced : ℕ → RouteLb → ℕ → ℕ × RouteLb → Type 0
Balanced k r n o = waiting k r + o.0 ≤ waiting k o.1 + n

step-Balanced :
    (cfg : Config) (k : ℕ) (c : Call) (r : RouteLb)
    → IfOk (Balanced k r (released_by k c)) (step cfg k c r)
unfolding step
step-Balanced cfg k (hosts now modid cmdid rsp) r =
    >>=-IfOk _ (get_host cfg now modid cmdid rsp r) _
      λ o e. omega (arith, of_IfOk _ _ (get_host-Accounts cfg now modid cmdid rsp r) e k)
step-Balanced cfg k (routes now modid cmdid rsp) r =
    >>=-IfOk _ (get_route cfg now modid cmdid rsp r) _
      λ o e. omega (arith, of_IfOk _ _ (get_route-Accounts cfg now modid cmdid rsp r) e k)
step-Balanced cfg k (reports now later last req) r =
    >>=-IfOk _ (report_host cfg now later last req r) _
      λ o e. omega (arith, of_IfOk _ _ (report_host-waiting cfg now later last req r) e k)
step-Balanced cfg k (answers now later modid cmdid rsp) r =
    >>=-IfOk _ (update_host cfg now later modid cmdid rsp r) _
      λ o e. omega (arith, of_IfOk _ _ (update_host-waiting cfg now later modid cmdid rsp r) e k)
step-Balanced cfg k resets r = omega (arith, waiting-le-one (lookup k r.route_lb_map))

run-Balanced :
    (cfg : Config) (k : ℕ) (cs : List Call) (r : RouteLb)
    → IfOk (Balanced k r (released k cs)) (run cfg k cs r)
unfolding run
run-Balanced cfg k [] r = omega arith
run-Balanced cfg k (c ∷ cs) r = >>=-IfOk _ (step cfg k c r) _ λ o e.
    >>=-IfOk _ (run cfg k cs o.1) _ λ o' e'.
      omega
        (arith, of_IfOk _ _ (step-Balanced cfg k c r) e, of_IfOk _ _ (run-Balanced cfg k cs o.1) e')

-- In a history that returns, from a new route_lb on, the DNS service is asked for a module at most
-- once more often than the module was answered or reset.
pub run-asks :
    (cfg : Config) (id k : ℕ) (cs : List Call) {o : ℕ × RouteLb}
    → run cfg k cs (new_route_lb id) ≡ ok o
    → o.0 ≤ 1 + released k cs
run-asks cfg id k cs {o} e = omega (
  arith,
  of_IfOk _ _ (run-Balanced cfg k cs (new_route_lb id)) e,
  waiting-le-one (lookup k o.1.route_lb_map),
)
