-- ===== src/Reactor/LoopTests.antt =====
-- A turn of the event loop on small inputs.
use lars.Base.{
  ℕ, ◌≡◌, refl, true, false, List, [], ◌∷◌, ◌++◌, Result, ok, ◌>>=◌, ◌==◌, if◌then◌else◌, arith,
}
use lars.Reactor.EventLoop.{
  Mask, EventLoop, new_event_loop, add_io_event, FiredEvent, turn, fire_all, fire, run_tasks,
  execute_ready_tasks, del_io_event, del_io_mask, add_task, set_callback,
}
use lars.Base.Dict.{lookup, insert, erase}
use lars.Reactor.EventLoop.Callbacks.{IsServed, add_io_event-IsServed}
use lars.Reactor.EventLoop.Turn.{call_each, task_each, turn-IsServed}
use lars.Reactor.EventLoop.Turn.Owned.{
  Operation, deletes_all, adds_task, asks_write, operate, operate_all, operate_all-Keeps,
}

abbrev reads : Mask
reads = record { epollin = true; epollout = false }

-- 3 is a connection whose peer has gone, 7 the eventfd of a queue, 4 a connection that is to send
-- what the queue brings.
abbrev three_fds : EventLoop
three_fds =
    (add_io_event true 4 11 reads
      (add_io_event true 7 12 reads (add_io_event true 3 10 reads new_event_loop).1).1).1

three_fds-IsServed : IsServed three_fds
unfolding new_event_loop lookup
three_fds-IsServed =
    add_io_event-IsServed true 4 11 reads
      (add_io_event true 7 12 reads (add_io_event true 3 10 reads new_event_loop).1).1 refl
      (add_io_event-IsServed true 7 12 reads (add_io_event true 3 10 reads new_event_loop).1 refl
        (add_io_event-IsServed true 3 10 reads new_event_loop refl (λ fd. refl)))

abbrev done_by : ℕ → List Operation
done_by cb =
    if cb == 10
    then deletes_all ∷ []
    else if cb == 12
    then adds_task 5 ∷ asks_write true 4 13 ∷ []
    else []

-- The calls are noted, a task with the fd 0.
abbrev noted_call : ℕ → ℕ → List (ℕ × ℕ) → EventLoop → Result (List (ℕ × ℕ) × EventLoop)
noted_call cb fd w s = ok (w ++ (cb, fd) ∷ [], operate_all fd (done_by cb) s)

abbrev noted_task : ℕ → List (ℕ × ℕ) → EventLoop → Result (List (ℕ × ℕ) × EventLoop)
noted_task t w s = ok (w ++ (t, 0) ∷ [], s)

abbrev all_three : List FiredEvent
all_three =
    record { fd = 3; events = reads; hup = true }
    ∷ record { fd = 7; events = reads; hup = false }
    ∷ record { fd = 4; events = reads; hup = false }
    ∷ []

-- 3 is removed, 7 lets 4 wait for its write, and 4 is read all the same. The task of 7 comes last.
turn_calls :
    (turn noted_call noted_task all_three [] three_fds >>= λ r. ok r.0)
    ≡ ok ((10, 3) ∷ (12, 7) ∷ (11, 4) ∷ (5, 0) ∷ [])
unfolding turn fire_all fire run_tasks execute_ready_tasks operate_all operate add_io_event
    del_io_event del_io_mask add_task set_callback new_event_loop lookup insert erase
turn_calls = refl

turn-IsServed_example :
    (r q : List (ℕ × ℕ) × EventLoop) × (call_each noted_call three_fds all_three [] three_fds
      ≡ ok r)
    × (task_each noted_task r.1.ready_tasks r.0 r.1 ≡ ok q)
    × (turn noted_call noted_task all_three [] three_fds
        ≡ ok (q.0, record q.1 { ready_tasks = [] }))
    × IsServed q.1
unfolding new_event_loop lookup insert add_io_event set_callback
turn-IsServed_example =
    turn-IsServed noted_call noted_task
      (λ cb fd w s v. operate_all-Keeps fd (done_by cb) s (ground arith) v) (λ t w s v. (v, refl))
      all_three [] three_fds three_fds-IsServed refl
