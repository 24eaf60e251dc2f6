-- ===== src/Reactor/EventLoop/Turn.antt =====
-- A turn of `event_process`: the fired events and then the tasks.
pub mod Owned
use lars.Base.{
  ℕ, ◌≡◌, refl, Bool, true, false, not, ◌&&◌, ◌||◌, List, [], ◌∷◌, Option, none, some, length, ◌==◌,
  if◌then◌else◌, Result, ok, fault, use_after_free, ◌>>=◌, or_fault, null_pointer, is_some,
  Option-cases, Bool-cases, inl, inr, ==_iff, ap, subst, ◌∙◌, Returns, Returns-ok, arith, sym,
}
use lars.Base.Dict.{lookup}
use lars.Reactor.EventLoop.{
  IoEvent, EventLoop, FiredEvent, fire, calls, fire_all, run_tasks, turn, execute_ready_tasks,
}
use lars.Reactor.EventLoop.Callbacks.{IsServed, fire_lem}
use lars.Reactor.EventLoop.Watched.{
  chosen, is_expected, Includes, Includes-refl, Includes-trans, Keeps, fire-chosen,
}

abbrev pub fires : ℕ → List FiredEvent → Bool
fires fd [] = false
fires fd (e ∷ es) = (e.fd == fd) || fires fd es

-- What epoll_wait answers on a loop: every fd once, and as its event asks.
abbrev pub are_expected : EventLoop → List FiredEvent → Bool
are_expected s [] = true
are_expected s (e ∷ es) = (is_expected s e && not (fires e.fd es)) && are_expected s es

-- The fds of `es` are watched in `s` as they are in `s0`, or more.
abbrev pub Agree : List FiredEvent → EventLoop → EventLoop → Type 0
Agree es s0 s = (g : ℕ) → fires g es ≡ true → Includes (lookup g s0.io_evs) (lookup g s.io_evs)

-- The callbacks that `s0` has for `es`, one after the other.
module _ {W : Type 0} (call : ℕ → ℕ → W → EventLoop → Result (W × EventLoop)) (s0 : EventLoop) where
  unfoldable pub call_each : List FiredEvent → W → EventLoop → Result (W × EventLoop)
  call_each [] w s = ok (w, s)
  call_each (e ∷ es) w s =
      or_fault (chosen s0 e) null_pointer >>= λ cb. call cb e.fd w s >>= λ r. call_each es r.0 r.1

-- The tasks one after the other, whatever they do to the vector.
unfoldable pub task_each :
    {W : Type 0}
    → (ℕ → W → EventLoop → Result (W × EventLoop))
    → List ℕ
    → W
    → EventLoop
    → Result (W × EventLoop)
task_each task [] w s = ok (w, s)
task_each task (t ∷ ts) w s = task t w s >>= λ r. task_each task ts r.0 r.1

fires_other :
    (es : List FiredEvent) (fd g : ℕ) → fires g es ≡ true → fires fd es ≡ false → (fd == g) ≡ false
fires_other es fd g f h = elim (Bool-cases (fd == g)) [
  | inl same ↦ ground (arith, sym f ∙ ap (λ (a : ℕ). fires a es) (sym ((==_iff fd g).0 same)) ∙ h)
  | inr other ↦ other
]

Agree-tail :
    (s0 s s' : EventLoop) (e : FiredEvent) (es : List FiredEvent)
    → Agree (e ∷ es) s0 s
    → are_expected s0 (e ∷ es) ≡ true
    → Keeps e.fd s s'
    → Agree es s0 s'
Agree-tail s0 s s' e es agree x keeps g f =
    Includes-trans (lookup g s0.io_evs) (lookup g s.io_evs) (lookup g s'.io_evs)
      (agree g (ground (arith, f))) (keeps g (fires_other es e.fd g f (ground arith)))

module _ {W : Type 0} (call : ℕ → ℕ → W → EventLoop → Result (W × EventLoop))
    (own : (cb fd : ℕ) (w : W) (s : EventLoop)
      → IsServed s
      → Returns (λ r. IsServed r.1 × Keeps fd s r.1) (call cb fd w s)) where
  pub fire_all-call_each :
      (s0 : EventLoop) (es : List FiredEvent) (w : W) (s : EventLoop)
      → IsServed s
      → Agree es s0 s
      → are_expected s0 es ≡ true
      → (fire_all call es w s ≡ call_each call s0 es w s)
        × Returns (λ r. IsServed r.1) (fire_all call es w s)
  unfolding fire_all call_each
  fire_all-call_each s0 [] w s v g x = (refl, v)
  fire_all-call_each s0 (e ∷ es) w s v agree x =
      let found =
        fire-chosen s0 s e v (agree e.fd (ground (arith, (==_iff e.fd e.fd).1 refl)))
          (ground arith) in
      let (r, ran, safe) =
        Returns-ok (λ (r : W × EventLoop). IsServed r.1 × Keeps e.fd s r.1) (call found.0 e.fd w s)
          (own found.0 e.fd w s v) in
      let rest =
        fire_all-call_each s0 es r.0 r.1 safe.0 (Agree-tail s0 s r.1 e es agree x safe.1)
          (ground arith) in
      rw (found.1, fire_all) (rw (found.2, call_each) (rw ran rest))

module _ {W : Type 0} (task : ℕ → W → EventLoop → Result (W × EventLoop))
    (tame : (t : ℕ) (w : W) (s : EventLoop)
      → IsServed s
      → Returns
          (λ r. IsServed r.1 × (length r.1.ready_tasks ≡ length s.ready_tasks))
          (task t w s)) where
  run_tasks-step :
      (t : ℕ) (ts : List ℕ) (w : W) (s : EventLoop) (r : W × EventLoop)
      → task t w s ≡ ok r
      → length r.1.ready_tasks ≡ length s.ready_tasks
      → run_tasks task (t ∷ ts) w s ≡ run_tasks task ts r.0 r.1
  unfolding run_tasks
  run_tasks-step t ts w s r ran same = ground (arith, ran, same)

  run_tasks-task_each :
      (ts : List ℕ) (w : W) (s : EventLoop)
      → IsServed s
      → (run_tasks task ts w s ≡ task_each task ts w s)
        × Returns (λ r. IsServed r.1) (run_tasks task ts w s)
  unfolding run_tasks task_each
  run_tasks-task_each [] w s v = (refl, v)
  run_tasks-task_each (t ∷ ts) w s v =
      let (r, ran, safe) =
        Returns-ok
          (λ (r : W × EventLoop). IsServed r.1 × (length r.1.ready_tasks ≡ length s.ready_tasks))
          (task t w s) (tame t w s v) in
      rw (run_tasks-step t ts w s r ran safe.1) (rw ran (run_tasks-task_each ts r.0 r.1 safe.0))

module _ {W : Type 0} (call : ℕ → ℕ → W → EventLoop → Result (W × EventLoop))
    (task : ℕ → W → EventLoop → Result (W × EventLoop)) where
  -- Every event of the loop is served, and epoll_wait answers with every fd once, with sides that its
  -- event asks for. A callback returns, keeps the events served and leaves every other fd watched on the
  -- sides and with the callbacks that it had, or on more; a task returns, keeps the events served and
  -- adds no task. Then a turn returns, with every event served and no task left: it has called the
  -- callbacks that the fired events had when the turn began, once each and in their order, and then the
  -- tasks that were there after the callbacks, once each and in order.
  pub turn-IsServed :
      (own : (cb fd : ℕ) (w : W) (s : EventLoop)
        → IsServed s
        → Returns (λ r. IsServed r.1 × Keeps fd s r.1) (call cb fd w s))
      (tame : (t : ℕ) (w : W) (s : EventLoop)
        → IsServed s
        → Returns
            (λ r. IsServed r.1 × (length r.1.ready_tasks ≡ length s.ready_tasks))
            (task t w s))
      (es : List FiredEvent) (w : W) (s : EventLoop)
      → IsServed s
      → are_expected s es ≡ true
      → (r q : W × EventLoop) × (call_each call s es w s ≡ ok r)
        × (task_each task r.1.ready_tasks r.0 r.1 ≡ ok q)
        × (turn call task es w s ≡ ok (q.0, record q.1 { ready_tasks = [] }))
        × IsServed q.1
  unfolding turn execute_ready_tasks
  turn-IsServed own tame es w s v x =
      let fired =
        fire_all-call_each call own s es w s v (λ g f. Includes-refl (lookup g s.io_evs)) x in
      let (r, called, served) =
        Returns-ok (λ (r : W × EventLoop). IsServed r.1) (fire_all call es w s) fired.1 in
      let ran = run_tasks-task_each task tame r.1.ready_tasks r.0 r.1 served in
      let (q, done, last) =
        Returns-ok (λ (q : W × EventLoop). IsServed q.1) (run_tasks task r.1.ready_tasks r.0 r.1)
          ran.1 in
      (r, q, sym fired.0 ∙ called, sym ran.0 ∙ done, rw (called, turn) (rw done refl), last)
