-- ===== src/Agent/RouteLb/Serving.antt =====
-- The calls of route_lb on load_balances with a property that their operations keep.
pub mod Safety
use lars.Base.{
  ℕ, ◌≡◌, subst, Bool, false, List, some, Result, ok, inl, inr, Returns, Returns-ok, ◌==◌, arith,
  Bool-cases, Option-cases,
}
use lars.Base.Dict.{lookup, lookup-insert}
use lars.Base.Words.{pair_key}
use lars.Agent.Config.{Config}
use lars.Agent.Messages.{GetHostResponse, ReportRequest, ReportStatusRequest}
use lars.Agent.LoadBalance.{LoadBalance, Status, pulling, empty, new_load_balance, choice_one_host}
use lars.Agent.LoadBalance.Valid.{IsValid, new_load_balance-IsValid}
use lars.Agent.LoadBalance.Choice.{choice-IsValid}
use lars.Agent.LoadBalance.Report.{report}
use lars.Agent.LoadBalance.Report.Keeps.{report-IsValid}
use lars.Agent.LoadBalance.Report.Commit.{commit_lem}
use lars.Agent.RouteLb.{
  RouteLb, Served, get_host, get_host_known, report_host, refresh, add_module, store,
}

-- A property of load_balances, at least that they are well formed, that the choice of a host and a
-- report keep, and under which they do not fault.
pub record Kept (P : LoadBalance → Type 0) : Type 0 where
  pub valid : (lb : LoadBalance) → P lb → IsValid lb
  pub added : (m c now : ℕ) → P (new_load_balance m c now)
  pub restated : (lb : LoadBalance) (st : Status) → P lb → P (record lb { status = st })
  pub chosen :
      (cfg : Config) (lb : LoadBalance) (rsp : GetHostResponse)
      → P lb
      → empty lb ≡ false
      → (r : ℕ × GetHostResponse × LoadBalance) × (choice_one_host cfg lb rsp ≡ ok r) × P r.2
  pub reported :
      (cfg : Config) (now later ip port retcode : ℕ) (lb : LoadBalance)
      → P lb
      → (lb' : LoadBalance) × (report cfg now later ip port retcode lb ≡ ok lb') × P lb'

-- Every module's load_balance has the property.
abbrev pub All : (LoadBalance → Type 0) → RouteLb → Type 0
All P r = (k : ℕ) (lb : LoadBalance) → lookup k r.route_lb_map ≡ some lb → P lb

module _ {P : LoadBalance → Type 0} (kept : Kept P) where
  store-All : (k : ℕ) (lb : LoadBalance) (r : RouteLb) → P lb → All P r → All P (store k lb r)
  unfolding store
  store-All k lb r h all j lb' e = elim (Bool-cases (k == j)) [
    | inl same ↦
        let found : lb ≡ lb' = ground (arith, lookup-insert k j lb r.route_lb_map) in
        subst P found h
    | inr other ↦ all j lb' (rw (lookup-insert k j lb r.route_lb_map, other) at e)
  ]

  refresh-P : (cfg : Config) (now : ℕ) (lb : LoadBalance) → P lb → P (refresh cfg now lb).1
  unfolding refresh
  refresh-P cfg now lb h = ground (arith, kept.restated lb pulling h)

  add_module-All :
      (now modid cmdid : ℕ) (r : RouteLb) → All P r → All P (add_module now modid cmdid r).1
  unfolding add_module
  add_module-All now modid cmdid r all =
      store-All (pair_key modid cmdid) _ r
        (kept.restated (new_load_balance modid cmdid now) pulling (kept.added modid cmdid now)) all

  get_host_known-All :
      (cfg : Config) (now k : ℕ) (rsp : GetHostResponse) (lb : LoadBalance) (r : RouteLb)
      → P lb
      → All P r
      → Returns (λ o. All P o.state) (get_host_known cfg now k rsp lb r)
  unfolding get_host_known
  get_host_known-All cfg now k rsp lb r h all = elim (Bool-cases (empty lb)) [
    | inl e ↦ rw (e, get_host_known) all
    | inr e ↦
        let (c, ran, h') = kept.chosen cfg lb rsp h e in
        rw (e, get_host_known) (rw ran (store-All k _ r (refresh-P cfg now c.2 h') all))
  ]

  pub get_host-All :
      (cfg : Config) (now modid cmdid : ℕ) (rsp : GetHostResponse) (r : RouteLb)
      → All P r
      → Returns (λ o. All P o.state) (get_host cfg now modid cmdid rsp r)
  unfolding get_host
  get_host-All cfg now modid cmdid rsp r all =
      elim (Option-cases (lookup (pair_key modid cmdid) r.route_lb_map)) [
        | inl e ↦ rw (e, get_host) (add_module-All now modid cmdid r all)
        | inr (lb, e) ↦
            rw (e, get_host)
              (get_host_known-All cfg now (pair_key modid cmdid) rsp lb r (all _ lb e) all)
      ]

  pub report_host-All :
      (cfg : Config) (now later last : ℕ) (req : ReportRequest) (r : RouteLb)
      → All P r
      → Returns
          (λ (o : List ReportStatusRequest × RouteLb). All P o.1)
          (report_host cfg now later last req r)
  unfolding report_host
  report_host-All cfg now later last req r all =
      elim (Option-cases (lookup (pair_key req.modid req.cmdid) r.route_lb_map)) [
        | inl e ↦ rw (e, report_host) all
        | inr (lb, e) ↦
            let (lb', ran, h) =
              kept.reported cfg now later req.host.ip req.host.port req.retcode lb (all _ lb e) in
            rw (e, report_host)
              (rw ran (
                rw (commit_lem last lb' (kept.valid lb' h))
                  (store-All (pair_key req.modid req.cmdid) lb' r h all)))
      ]

pub status-IsValid :
    (lb : LoadBalance) (st : Status) → IsValid lb → IsValid (record lb { status = st })
status-IsValid lb st v = record {
  lists = record {
    idle_exact = v.lists.idle_exact;
    overload_exact = v.lists.overload_exact;
    stamped = v.lists.stamped;
    unused = v.lists.unused;
  };
  mapped = v.mapped;
}

IsValid-Kept : Kept IsValid
unfolding empty
IsValid-Kept = record {
  valid = λ lb v. v;
  added = new_load_balance-IsValid;
  restated = status-IsValid;
  chosen =
      λ cfg lb rsp v e. let (r, ran, (answer, v')) = choice-IsValid cfg lb rsp v e in (r, ran, v');
  reported = report-IsValid;
}

-- `get_host` never faults while every load_balance is well formed, and leaves them so.
pub get_host-AllValid :
    (cfg : Config) (now modid cmdid : ℕ) (rsp : GetHostResponse) (r : RouteLb)
    → All IsValid r
    → (o : Served GetHostResponse) × (get_host cfg now modid cmdid rsp r ≡ ok o)
      × All IsValid o.state
get_host-AllValid cfg now modid cmdid rsp r all =
    Returns-ok (λ o. All IsValid o.state) _
      (get_host-All IsValid-Kept cfg now modid cmdid rsp r all)

-- `report_host` never faults while every load_balance is well formed, and leaves them so.
pub report_host-AllValid :
    (cfg : Config) (now later last : ℕ) (req : ReportRequest) (r : RouteLb)
    → All IsValid r
    → (o : List ReportStatusRequest × RouteLb) × (report_host cfg now later last req r ≡ ok o)
      × All IsValid o.1
report_host-AllValid cfg now later last req r all =
    Returns-ok (λ o. All IsValid o.1) _ (report_host-All IsValid-Kept cfg now later last req r all)
