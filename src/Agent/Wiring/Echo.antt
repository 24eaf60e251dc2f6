-- ===== src/Agent/Wiring/Echo.antt =====
-- A response repeats what names its request.
use lars.Base.{ℕ, ◌≡◌, ok, >>=-IfOk, of_IfOk}
use lars.Agent.Config.{Config}
use lars.Agent.Messages.{GetHostRequest, GetHostResponse}
use lars.Agent.RouteLb.{get_host}
use lars.Agent.RouteLb.Echo.{Echoes, get_host-Echoes}
use lars.Agent.Wiring.{Agent, get_host_cb, host_response}

pub get_host_cb-answers :
    (cfg : Config) (now i : ℕ) (req : GetHostRequest) (s : Agent) {o : GetHostResponse × Agent}
    → get_host_cb cfg now i req s ≡ ok o
    → (o.0.seq ≡ req.seq) × (o.0.modid ≡ req.modid) × (o.0.cmdid ≡ req.cmdid)
unfolding get_host_cb
get_host_cb-answers cfg now i req s {o} ran =
    of_IfOk (λ (o : GetHostResponse × Agent). Echoes (host_response req) o.0) _
      (>>=-IfOk (λ (o : GetHostResponse × Agent). Echoes (host_response req) o.0)
        (get_host cfg now req.modid req.cmdid (host_response req) (s.r_lb i)) _
        λ o e.
          of_IfOk _ _ (get_host-Echoes cfg now req.modid req.cmdid (host_response req) (s.r_lb i))
            e)
      ran
