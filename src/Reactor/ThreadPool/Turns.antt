-- ===== src/Reactor/ThreadPool/Turns.antt =====
-- Which threads get the connections.
use lars.Base.{
  ℕ, zero, suc, ◌<◌, ◌≤◌, ◌≡◌, refl, ◌∙◌, true, false, List, [], ◌∷◌, inl, inr, ltb, ◌==◌, Result,
  ok, fault, ◌>>=◌, out_of_bounds, arith, Bool-cases,
}
use lars.Reactor.ThreadPool.{
  TaskMsg, new_conn, ThreadPool, new_thread_pool, get_thread, send_at, hand_over,
}

-- Connections handed over in turn.
unfoldable pub hand_all : List ℕ → ThreadPool → Result ThreadPool
unfolding hand_over
hand_all [] p = ok p
hand_all (fd ∷ fds) p = hand_over fd p >>= hand_all fds

-- The queue with a number.
abbrev pub queue_at : ℕ → List (List TaskMsg) → List TaskMsg
queue_at i [] = []
queue_at zero (q ∷ qs) = q
queue_at (suc i) (q ∷ qs) = queue_at i qs

queue_at-send_at :
    (i j : ℕ) (task : TaskMsg) (qs : List (List TaskMsg))
    → (i == j) ≡ false
    → queue_at j (send_at i task qs) ≡ queue_at j qs
unfolding send_at
queue_at-send_at i j task [] ne = refl
queue_at-send_at zero zero task (q ∷ qs) ne = ground arith
queue_at-send_at zero (suc j) task (q ∷ qs) ne = refl
queue_at-send_at (suc i) zero task (q ∷ qs) ne = refl
queue_at-send_at (suc i) (suc j) task (q ∷ qs) ne = queue_at-send_at i j task qs (ground arith)

-- With two threads or more, the choice is never the last thread's queue, and the index stays in range.
get_thread_lem :
    (p : ThreadPool)
    → 2 ≤ p.thread_cnt
    → p.index < p.thread_cnt
    → (i : ℕ) × (get_thread p ≡ ok (i, record p { index = suc i })) × (suc i < p.thread_cnt)
unfolding get_thread
get_thread_lem p two range = elim (Bool-cases (suc p.index == p.thread_cnt)) [
  | inl wraps ↦
      let room : ltb 0 p.thread_cnt ≡ true = ground arith in
      (0, rw (wraps, get_thread) (rw room refl), ground arith)
  | inr goes ↦
      let room : ltb p.index p.thread_cnt ≡ true = ground arith in
      (p.index, rw (goes, get_thread) (rw room refl), ground arith)
]

-- With two threads or more, and an index in range, whatever connections are handed over: it succeeds,
-- and the last thread's queue gets none of them.
pub hand_all_lem :
    (fds : List ℕ) (last : ℕ) (p : ThreadPool)
    → p.thread_cnt ≡ suc last
    → 1 ≤ last
    → p.index ≤ last
    → (p' : ThreadPool) × (hand_all fds p ≡ ok p')
      × (queue_at last p'.queues ≡ queue_at last p.queues)
unfolding hand_all hand_over
hand_all_lem [] last p c two range = (p, refl, refl)
hand_all_lem (fd ∷ fds) last p c two range =
    let (i, ran, below) = get_thread_lem p (ground arith) (ground arith) in
    let (p', went, same) =
      hand_all_lem fds last (record p { index = suc i; queues = send_at i (new_conn fd) p.queues })
        c two (ground arith) in
    (p', rw ran went, same ∙ queue_at-send_at i last (new_conn fd) p.queues (ground arith))

-- With one thread, the second connection is handed over past the end of the array of queues.
pub hand_all_single :
    (a b : ℕ) (fds : List ℕ) → (new_thread_pool 1 >>= hand_all (a ∷ b ∷ fds)) ≡ fault out_of_bounds
unfolding new_thread_pool hand_all hand_over get_thread
hand_all_single a b fds = refl
