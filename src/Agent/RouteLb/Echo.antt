-- ===== src/Agent/RouteLb/Echo.antt =====
-- `get_host` leaves the number and the module of a response alone.
use lars.Base.{ℕ, ◌≡◌, refl, IfOk, >>=-IfOk, arith, Bool-cases, Option-cases, inl, inr, ok}
use lars.Base.Dict.{lookup}
use lars.Base.Words.{pair_key}
use lars.Agent.Config.{Config}
use lars.Agent.Messages.{GetHostResponse}
use lars.Agent.LoadBalance.{LoadBalance, choice_one_host, get_host_from_list, empty}
use lars.Agent.RouteLb.{RouteLb, Served, get_host, get_host_known}

abbrev pub Echoes : GetHostResponse → GetHostResponse → Type 0
Echoes rsp rsp' = (rsp'.seq ≡ rsp.seq) × (rsp'.modid ≡ rsp.modid) × (rsp'.cmdid ≡ rsp.cmdid)

choice-Echoes :
    (cfg : Config) (s : LoadBalance) (rsp : GetHostResponse) {c : ℕ × GetHostResponse × LoadBalance}
    → choice_one_host cfg s rsp ≡ ok c
    → Echoes rsp c.1
unfolding choice_one_host get_host_from_list
choice-Echoes cfg s rsp e = ground arith

pub get_host-Echoes :
    (cfg : Config) (now modid cmdid : ℕ) (rsp : GetHostResponse) (r : RouteLb)
    → IfOk (λ o. Echoes rsp o.rsp) (get_host cfg now modid cmdid rsp r)
unfolding get_host get_host_known
get_host-Echoes cfg now modid cmdid rsp r =
    elim (Option-cases (lookup (pair_key modid cmdid) r.route_lb_map)) [
      | inl missing ↦ rw (missing, get_host) (refl, refl, refl)
      | inr (lb, found) ↦ elim (Bool-cases (empty lb)) [
        | inl e ↦ rw (found, get_host) (rw e (refl, refl, refl))
        | inr e ↦
            rw (found, get_host)
              (rw e (
                >>=-IfOk (λ (o : Served GetHostResponse). Echoes rsp o.rsp)
                  (choice_one_host cfg lb rsp) _ λ c ran. choice-Echoes cfg lb rsp ran))
      ]
    ]
