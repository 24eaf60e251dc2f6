-- ===== src/Reporter/Race.antt =====
-- Two threads of the server in `get_report_status` at once.
use lars.Base.{
  suc, ◌+◌, ◌≡◌, refl, List, [], ◌∷◌, Result, ok, fault, ◌>>=◌, out_of_bounds, length, arith,
}
use lars.Agent.Messages.{ReportStatusRequest}
use lars.Reporter.{Reporter, send_at, send_report, next_index, wrap_index}
use lars.Reporter.Turns.{send_at-Sent}

-- A statement of the handler.
pub data Statement : Type 0 where
  sends : ReportStatusRequest → Statement
  nexts wraps : Statement

abbrev pub handler : ReportStatusRequest → List Statement
handler req = sends req ∷ nexts ∷ wraps ∷ []

abbrev execute : Statement → Reporter → Result Reporter
execute (sends req) s = send_report req s
execute nexts s = ok (next_index s)
execute wraps s = ok (wrap_index s)

unfoldable pub execute_all : List Statement → Reporter → Result Reporter
unfolding send_report next_index wrap_index
execute_all [] s = ok s
execute_all (c ∷ cs) s = execute c s >>= execute_all cs

-- The orders in which two threads can run.
pub data Interleaves : List Statement → List Statement → List Statement → Type 0 where
  done : Interleaves [] [] []
  left :
      {c : Statement} {xs ys zs : List Statement}
      → Interleaves xs ys zs
      → Interleaves (c ∷ xs) ys (c ∷ zs)
  right :
      {c : Statement} {xs ys zs : List Statement}
      → Interleaves xs ys zs
      → Interleaves xs (c ∷ ys) (c ∷ zs)

send_at-out :
    (req : ReportStatusRequest) (qs : List (List ReportStatusRequest))
    → send_at (length qs) req qs ≡ fault out_of_bounds
unfolding send_at
send_at-out req [] = refl
send_at-out req (q ∷ qs) = rw (send_at-out req qs) refl

-- When it is the last queue's turn, two threads that handle a report each have an order in which the
-- second one uses the index before the first has wrapped it, and reads past the end of the array.
pub execute_all-race :
    (one two : ReportStatusRequest) (s : Reporter)
    → suc s.index ≡ length s.queues
    → (cs : List Statement) × Interleaves (handler one) (handler two) cs
      × (execute_all cs s ≡ fault out_of_bounds)
unfolding execute_all send_report next_index wrap_index
execute_all-race one two s last =
    let (qs, ran, sent) = send_at-Sent s.index one s.queues (omega (arith, last)) in
    let over : s.index + 1 ≡ length qs = ground (arith, sent.size) in
    (
      sends one ∷ nexts ∷ sends two ∷ wraps ∷ nexts ∷ wraps ∷ [],
      left (left (right (left (right (right done))))),
      rw ran (rw over (rw (send_at-out two qs) refl)),
    )
