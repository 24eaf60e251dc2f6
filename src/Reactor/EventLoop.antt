-- ===== src/Reactor/EventLoop.antt =====
-- event_loop (lars_reactor/src/event_loop.cpp, include/event_base.h). A mask has the two flags that the
-- code uses. A callback is a number that stands for the function with its argument. `epoll_ctl` is a
-- request that the operation returns, and its answer is an argument where the code reads it.
pub mod Callbacks
pub mod Watched
pub mod Turn
use lars.Base.{
  ℕ, Bool, true, false, not, ◌&&◌, ◌||◌, List, [], ◌∷◌, ◌++◌, Option, none, some, if◌then◌else◌,
  Result, ok, fault, ◌>>=◌, or_fault, null_pointer, out_of_bounds, use_after_free, remove, get_or,
  length, ◌==◌,
}
use lars.Base.Dict.{Dict, lookup, insert, erase}
use lars.Base.Sets.{add}

pub record Mask : Type 0 where
  pub epollin : Bool
  pub epollout : Bool

abbrev pub join : Mask → Mask → Mask
join a b = record { epollin = a.epollin || b.epollin; epollout = a.epollout || b.epollout }

-- `a & (~b)`.
abbrev pub without : Mask → Mask → Mask
without a b = record {
  epollin = a.epollin && not b.epollin;
  epollout = a.epollout && not b.epollout;
}

pub record IoEvent : Type 0 where
  pub mask : Mask
  pub read_callback : Option ℕ
  pub write_callback : Option ℕ

abbrev pub new_io_event : IoEvent
new_io_event = record {
  mask = record { epollin = false; epollout = false };
  read_callback = none;
  write_callback = none;
}

pub record EventLoop : Type 0 where
  pub io_evs : Dict IoEvent
  pub listen_fds : List ℕ
  pub ready_tasks : List ℕ

unfoldable pub new_event_loop : EventLoop
new_event_loop = record { io_evs = []; listen_fds = []; ready_tasks = [] }

-- A request to epoll.
pub data Ctl : Type 0 where
  ctl_add ctl_mod : ℕ → Mask → Ctl
  ctl_del : ℕ → Ctl

-- The callback goes to the read side, or else to the write side.
unfoldable pub set_callback : Mask → ℕ → IoEvent → IoEvent
set_callback mask proc ev =
    if mask.epollin
    then record ev { read_callback = some proc }
    else if mask.epollout
    then record ev { write_callback = some proc }
    else ev

-- `done` says that `epoll_ctl` did not return -1.
unfoldable pub add_io_event : Bool → ℕ → ℕ → Mask → EventLoop → Ctl × EventLoop
unfolding set_callback
add_io_event done fd proc mask s =
    let ev = get_or (lookup fd s.io_evs) new_io_event in
    let final_mask = join ev.mask mask in
    let s' = record s {
      io_evs = insert fd (record (set_callback mask proc ev) { mask = final_mask }) s.io_evs;
    } in
    (
      elim (lookup fd s.io_evs) [ none ↦ ctl_add fd final_mask | some _ ↦ ctl_mod fd final_mask ],
      if done then record s' { listen_fds = add fd s'.listen_fds } else s',
    )

unfoldable pub del_io_event : ℕ → EventLoop → Ctl × EventLoop
del_io_event fd s =
    (ctl_del fd, record s { io_evs = erase fd s.io_evs; listen_fds = remove fd s.listen_fds })

-- The other `del_io_event`: no request where there is no event.
unfoldable pub del_io_mask : ℕ → Mask → EventLoop → Option Ctl × EventLoop
unfolding del_io_event
del_io_mask fd mask s = elim (lookup fd s.io_evs) [
  | none ↦ (none, s)
  | some ev ↦
      let o_mask = without ev.mask mask in
      if o_mask.epollin || o_mask.epollout
      then (
        some (ctl_mod fd o_mask),
        record s { io_evs = insert fd (record ev { mask = o_mask }) s.io_evs },
      )
      else (let o = del_io_event fd s in (some o.0, o.1))
]

-- What `event_process` does with one fired event: the callback it calls, or the removal of the fd. A
-- fd without an event is read past the map's end, a missing callback is called through NULL.
pub data Fired : Type 0 where
  calls : ℕ → Fired
  deletes nothing : Fired

unfoldable pub fire : ℕ → Mask → Bool → EventLoop → Result Fired
fire fd events hup s = or_fault (lookup fd s.io_evs) out_of_bounds >>= λ ev.
    if events.epollin
    then (or_fault ev.read_callback null_pointer >>= λ cb. ok (calls cb))
    else if events.epollout
    then (or_fault ev.write_callback null_pointer >>= λ cb. ok (calls cb))
    else if hup
    then (elim ev.read_callback [
      | some cb ↦ ok (calls cb)
      | none ↦ elim ev.write_callback [ some cb ↦ ok (calls cb) | none ↦ ok deletes ]
    ])
    else ok nothing

unfoldable pub add_task : ℕ → EventLoop → EventLoop
add_task func s = record s { ready_tasks = s.ready_tasks ++ func ∷ [] }

-- The tasks that are called, in order.
unfoldable pub execute_ready_tasks : EventLoop → List ℕ × EventLoop
execute_ready_tasks s = (s.ready_tasks, record s { ready_tasks = [] })

-- An entry of `_fired_evs`; `hup` says that EPOLLHUP or EPOLLERR is set.
pub record FiredEvent : Type 0 where
  pub fd : ℕ
  pub events : Mask
  pub hup : Bool

-- A turn of the loop, for any state `W` of what the callbacks and the tasks work on: `call cb fd`
-- calls the callback `cb` with `fd`, `task t` calls the task `t`.
module _ {W : Type 0} where
  -- The fired events in order, each one looked up when its turn comes.
  unfoldable pub fire_all :
      (ℕ → ℕ → W → EventLoop → Result (W × EventLoop))
      → List FiredEvent
      → W
      → EventLoop
      → Result (W × EventLoop)
  unfolding fire del_io_event
  fire_all call [] w s = ok (w, s)
  fire_all call (e ∷ es) w s = fire e.fd e.events e.hup s >>= λ what.
      (elim what [
        | calls cb ↦ call cb e.fd w s
        | deletes ↦ ok (w, (del_io_event e.fd s).1)
        | nothing ↦ ok (w, s)
      ])
      >>= λ r. fire_all call es r.0 r.1

  -- The tasks of the vector in order. A task that adds a task can move the vector that the loop walks
  -- through, which counts as a fault whatever its capacity is.
  unfoldable pub run_tasks :
      (ℕ → W → EventLoop → Result (W × EventLoop)) → List ℕ → W → EventLoop → Result (W × EventLoop)
  run_tasks task [] w s = ok (w, s)
  run_tasks task (t ∷ ts) w s = task t w s >>= λ r.
      elim (length r.1.ready_tasks == length s.ready_tasks) [
        | true ↦ run_tasks task ts r.0 r.1
        | false ↦ fault use_after_free
      ]

  -- What one turn of `event_process` does after `epoll_wait`.
  unfoldable pub turn :
      (ℕ → ℕ → W → EventLoop → Result (W × EventLoop))
      → (ℕ → W → EventLoop → Result (W × EventLoop))
      → List FiredEvent
      → W
      → EventLoop
      → Result (W × EventLoop)
  unfolding fire_all run_tasks execute_ready_tasks
  turn call task es w s = fire_all call es w s >>= λ r.
      run_tasks task (execute_ready_tasks r.1).0 r.0 r.1 >>= λ q.
      ok (q.0, (execute_ready_tasks q.1).1)
