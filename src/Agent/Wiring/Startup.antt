-- ===== src/Agent/Wiring/Startup.antt =====
-- The start of the agent (lars_lb_agent/src/main_server.cpp): `main` starts the UDP servers, whose
-- threads serve requests from then on, and makes the two queues afterwards.
use lars.Base.{
  ℕ, ◌≡◌, refl, ap, ◌∙◌, Bool, true, false, not, ◌&&◌, ◌||◌, List, [], ◌∷◌, none, if◌then◌else◌,
  ltb, length, length-append, Result, ok, fault, ◌>>=◌, null_pointer, arith,
}
use lars.Base.Dict.{lookup}
use lars.Base.Words.{pair_key}
use lars.Agent.Config.{Config}
use lars.Agent.Messages.{GetHostRequest}
use lars.Agent.Wiring.{Agent, shard, start_agent, new_dns_request}
use lars.Agent.Wiring.Placement.{Event, host_request, handle}
use lars.Agent.Wiring.FirstRequest.{first_request}

-- Whether `report_queue` and `dns_queue` are set; one that is NULL stands as an empty queue.
pub record Starting : Type 0 where
  pub agent : Agent
  pub has_report_queue : Bool
  pub has_dns_queue : Bool

-- When the UDP servers have started.
unfoldable pub udp_started : Starting
unfolding start_agent
udp_started = record { agent = start_agent; has_report_queue = false; has_dns_queue = false }

-- What happens next: `main` makes a queue, or something reaches the agent.
pub data Moment : Type 0 where
  makes_report_queue makes_dns_queue : Moment
  arrives : Event → Moment

-- A `send` on a queue that is NULL.
abbrev pub sends_to_null : Starting → Agent → Bool
sends_to_null p s =
    (not p.has_report_queue && ltb (length p.agent.report_queue) (length s.report_queue))
    || (not p.has_dns_queue && ltb (length p.agent.dns_queue) (length s.dns_queue))

unfoldable pub run_moments : Config → List Moment → Starting → Result Starting
run_moments cfg [] p = ok p
run_moments cfg (makes_report_queue ∷ ms) p =
    run_moments cfg ms (record p { has_report_queue = true })
run_moments cfg (makes_dns_queue ∷ ms) p = run_moments cfg ms (record p { has_dns_queue = true })
run_moments cfg (arrives e ∷ ms) p = handle cfg e p.agent >>= λ s.
    let rest = run_moments cfg ms (record p { agent = s }) in
    if sends_to_null p s then fault null_pointer else rest

-- A request with ids that have an index, for a module that its route_lb has not, while `main` has not
-- yet made the queue for the DNS service: NULL is dereferenced, whatever `main` does next.
pub run_moments-early :
    (cfg : Config) (now i : ℕ) (req : GetHostRequest) (ms : List Moment) (p : Starting)
    → shard req.modid req.cmdid ≡ ok i
    → lookup (pair_key req.modid req.cmdid) (p.agent.r_lb i).route_lb_map ≡ none
    → p.has_dns_queue ≡ false
    → run_moments cfg (arrives (host_request now req) ∷ ms) p ≡ fault null_pointer
unfolding run_moments handle new_dns_request
run_moments-early cfg now i req ms p own missing early =
    let o =
      first_request cfg now now now i req.modid req.cmdid req.seq (record { ip = 0; port = 0 } ∷ [])
        p.agent own missing refl in
    let size =
      ap length o.asked
      ∙ length-append p.agent.dns_queue (record { modid = req.modid; cmdid = req.cmdid } ∷ []) in
    rw (own, run_moments) (rw o.first_ran (ground (arith, early, size)))
