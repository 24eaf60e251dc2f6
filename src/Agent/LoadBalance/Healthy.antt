-- ===== src/Agent/LoadBalance/Healthy.antt =====
-- A well-formed load_balance whose entries have different keys: every call on it succeeds.
use lars.Base.{
  ℕ, ◌≡◌, refl, ◌∙◌, ap, true, false, List, [], ◌∷◌, some, is_some, is_empty, ok, Returns,
  >>=-Returns, Returns-ok, of_IfOk, arith, Option-cases, inl, inr,
}
use lars.Base.Dict.{Dict, lookup, distinct}
use lars.Base.Sets.{contains}
use lars.Agent.Config.{Config}
use lars.Agent.Messages.{HostAddr, GetHostResponse, GetRouteResponse}
use lars.Agent.LoadBalance.{LoadBalance, new_load_balance, choice_one_host, get_all_hosts, load_all}
use lars.Agent.LoadBalance.Valid.{IsValid, new_load_balance-IsValid, keyed_at}
use lars.Agent.LoadBalance.Choice.{choice-IsValid}
use lars.Agent.LoadBalance.Report.{report}
use lars.Agent.LoadBalance.Report.Keeps.{report-IsValid}
use lars.Agent.LoadBalance.Report.Unchanged.{report-Same}
use lars.Agent.LoadBalance.Update.{update, remote_keys}
use lars.Agent.LoadBalance.Update.Refresh.{update-IsValid}
use lars.Agent.LoadBalance.Update.Entries.{update-distinct}

pub record Healthy (s : LoadBalance) : Type 0 where
  pub valid : IsValid s
  pub unique : distinct s.host_map ≡ true

pub new_load_balance-Healthy : (m c now : ℕ) → Healthy (new_load_balance m c now)
unfolding new_load_balance
new_load_balance-Healthy m c now = record {
  valid = new_load_balance-IsValid m c now;
  unique = refl;
}

choice-host_map :
    (cfg : Config) (s : LoadBalance) (rsp : GetHostResponse) {c : ℕ × GetHostResponse × LoadBalance}
    → choice_one_host cfg s rsp ≡ ok c
    → c.2.host_map ≡ s.host_map
unfolding choice_one_host
choice-host_map cfg s rsp e = ground arith

pub choice-Healthy :
    (cfg : Config) (s : LoadBalance) (rsp : GetHostResponse)
    → Healthy s
    → is_empty s.host_map ≡ false
    → (r : ℕ × GetHostResponse × LoadBalance) × (choice_one_host cfg s rsp ≡ ok r) × Healthy r.2
choice-Healthy cfg s rsp h filled =
    let (r, ran, (answer, v)) = choice-IsValid cfg s rsp h.valid filled in
    (r, ran, record { valid = v; unique = ap distinct (choice-host_map cfg s rsp ran) ∙ h.unique })

pub report-Healthy :
    (cfg : Config) (now later ip port retcode : ℕ) (s : LoadBalance)
    → Healthy s
    → (s' : LoadBalance) × (report cfg now later ip port retcode s ≡ ok s') × Healthy s'
report-Healthy cfg now later ip port retcode s h =
    let (s', ran, v) = report-IsValid cfg now later ip port retcode s h.valid in
    (
      s',
      ran,
      record {
        valid = v;
        unique = ap distinct (report-Same cfg now later ip port retcode s ran).1 ∙ h.unique;
      },
    )

pub update-Healthy :
    (cfg : Config) (now later : ℕ) (rsp : GetRouteResponse) (s : LoadBalance)
    → Healthy s
    → is_empty rsp.host ≡ false
    → ((k : ℕ) → is_some (lookup k s.host_map) ≡ true → contains k (remote_keys rsp.host) ≡ true)
    → (s' : LoadBalance) × (update cfg now later rsp s ≡ ok s') × Healthy s'
update-Healthy cfg now later rsp s h given named =
    let (s', ran, v) = update-IsValid cfg now later rsp s h.valid given named in
    (
      s',
      ran,
      record { valid = v; unique = of_IfOk _ _ (update-distinct cfg now later rsp s h.unique) ran },
    )

load_all-Returns :
    (s : LoadBalance) (m : Dict ℕ)
    → distinct m ≡ true
    → ((k p : ℕ) → lookup k m ≡ some p → keyed_at k (s.cell p) ≡ true)
    → Returns (λ hosts. Unit {0}) (load_all s m)
unfolding load_all lookup
load_all-Returns s [] d live = tt
load_all-Returns s ((k, p) ∷ m) d live = elim (Option-cases (s.cell p)) [
  | inl freed ↦ ground (arith, live k p)
  | inr (h, there) ↦ rw there (
      >>=-Returns (λ hosts. Unit {0}) (λ hosts. Unit {0}) (load_all s m) _
        (load_all-Returns s m (ground arith)
          λ j q e. ground (arith, live j q, ap (λ i. is_some (lookup i m)) {x = k} {y = j}))
        λ hosts u. tt)
]

pub get_all_hosts-Healthy :
    (s : LoadBalance) → Healthy s → (hosts : List HostAddr) × (get_all_hosts s ≡ ok hosts)
unfolding get_all_hosts
get_all_hosts-Healthy s h =
    let (hosts, ran, u) =
      Returns-ok (λ hosts. Unit {0}) (load_all s s.host_map)
        (load_all-Returns s s.host_map h.unique h.valid.mapped.keyed) in
    (hosts, ran)
