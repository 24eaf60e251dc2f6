-- ===== src/Dns/System/Told.antt =====
-- What subscribers know, in every history of lars_dns.
use lars.Base.{ℕ, ◌≡◌, refl, true, List, [], inl, inr, none, arith}
use lars.Base.Dict.{lookup}
use lars.Base.Sets.{contains}
use lars.Dns.Route.{Route}
use lars.Dns.Subscribe.{new_subscribe_list}
use lars.Dns.Subscribe.Booking.{is_booked}
use lars.Dns.System.Sent.{Says}
use lars.Dns.System.Invariant.{Knows, IsSound, connect-IsSound, note-IsSound}
use lars.Dns.System.Handler.{read_hosts-IsSound, answer-IsSound, close-IsSound}
use lars.Dns.System.News.{reload-IsSound, publish-IsSound, push-IsSound, told-Says, push-Says}
use lars.Dns.System.{
  System, new_system, push, Step, connects, notes, reads, answers, closes, reloads, publishes,
  pushes, pushes_meanwhile, Orderly, AllOrderly, Reach, start, later,
}

new_system-IsSound : (r : Route) (now : ℕ) → IsSound (new_system r now)
unfolding new_system new_subscribe_list lookup contains
new_system-IsSound r now = record {
  agrees = λ fd k. refl;
  keys = λ fd k booked. absurd (ground arith);
  knows = λ fd k booked. absurd (ground arith);
  answers = λ fd. tt;
}

Step-IsSound : {s t : System} (st : Step s t) → Orderly st → IsSound s → IsSound t
Step-IsSound {s} (connects fd free) o h = connect-IsSound fd s free h
Step-IsSound {s} (notes modid cmdid fd conn there idle) o h =
    note-IsSound s h fd conn there modid cmdid idle o.0 o.1
Step-IsSound {s} (reads fd modid cmdid busy) o h = read_hosts-IsSound fd modid cmdid s busy h
Step-IsSound {s} (answers fd rsp busy) o h = answer-IsSound fd rsp s busy h
Step-IsSound {s} (closes fd conn out there idle cleared) o h =
    close-IsSound fd conn out s there idle cleared h
Step-IsSound {s} (reloads db now c clear_now ran) o h = reload-IsSound c s clear_now o h
Step-IsSound {s} (publishes changes owes) o h = publish-IsSound changes s owes h
Step-IsSound {s} (pushes online idle) o h = push-IsSound online s idle h
Step-IsSound {s} (pushes_meanwhile online changes idle owes) o h = absurd o

Reach-IsSound : {s t : System} (r : Reach s t) → AllOrderly r → IsSound s → IsSound t
Reach-IsSound start o h = h
Reach-IsSound (later r st) o h = Step-IsSound st o.1 (Reach-IsSound r o.0 h)

-- A history of lars_dns in which the ids of the requests are not negative, the changes of every round
-- name each module whose hosts the round has changed (a reload for its age alone, which names none,
-- changes no hosts), and `push_change_task` always runs whole, without
-- a `publish` or anything else in the middle of it. Whatever the order of the steps otherwise: an fd
-- that is subscribed to a module has got a last message on it with the hosts that are in memory, or the
-- change is still to be published or pushed, or the handler of the fd is about to answer for the module.
pub Reach-Knows :
    (r : Route) (now fd k : ℕ) {s : System} (reach : Reach (new_system r now) s)
    → AllOrderly reach
    → is_booked k fd s.list ≡ true
    → Knows s fd k
Reach-Knows r now fd k reach orderly booked =
    (Reach-IsSound reach orderly (new_system-IsSound r now)).knows fd k booked

-- A history of lars_dns in which the ids of the requests are not negative, the changes of every round
-- name each module whose hosts the round has changed (a reload for its age alone, which names none,
-- changes no hosts), and `push_change_task` always runs whole, without
-- a `publish` or anything else in the middle of it. At its end no change is still to be published and
-- no handler runs for the fds that a loop listens to. When that loop now runs `push_change_task`, whole
-- as well, each of these fds has got, on every module that it is subscribed to, a last message with the
-- hosts that are in memory.
pub push-all_know :
    (r : Route) (now fd k : ℕ) (online : List ℕ) {s : System} (reach : Reach (new_system r now) s)
    → AllOrderly reach
    → s.owed ≡ none
    → ((g : ℕ) → contains g online ≡ true → s.handling g ≡ none)
    → contains fd online ≡ true
    → is_booked k fd s.list ≡ true
    → Says s.route k ((push online s).sent fd)
unfolding contains
push-all_know r now fd k online {s} reach orderly published idle on booked =
    let h = Reach-IsSound reach orderly (new_system-IsSound r now) in
    elim (h.knows fd k booked) [
      | inl says ↦ push-Says online s idle fd k says
      | inr (inl (inl told)) ↦ told-Says online s idle fd k h booked on told
      | inr (inl (inr owed)) ↦
          let no : contains k [] ≡ true = rw published at owed in absurd (ground arith)
      | inr (inr asks) ↦ absurd (rw (idle fd on) at asks)
    ]
