-- ===== src/Reactor/EventLoop/Callbacks.antt =====
-- An event that fires has its callback.
use lars.Base.{
  ℕ, ◌≡◌, refl, Bool, true, false, not, ◌&&◌, ◌||◌, none, some, inl, inr, if◌then◌else◌, ok, arith,
  Bool-cases, Option-cases, get_or, is_some,
}
use lars.Base.Dict.{lookup, lookup-insert, lookup-erase}
use lars.Reactor.EventLoop.{
  Mask, IoEvent, EventLoop, add_io_event, set_callback, del_io_event, del_io_mask, join, without,
  fire, calls,
}

-- A side of the mask that is set has its callback.
abbrev pub is_served : IoEvent → Bool
is_served ev =
    (not ev.mask.epollin || is_some ev.read_callback)
    && (not ev.mask.epollout || is_some ev.write_callback)

abbrev pub is_served_at : ℕ → EventLoop → Bool
is_served_at fd s = elim (lookup fd s.io_evs) [ none ↦ true | some ev ↦ is_served ev ]

-- Every event of the loop has the callbacks of its mask.
abbrev pub IsServed : EventLoop → Type 0
IsServed s = (fd : ℕ) → is_served_at fd s ≡ true

-- `add_io_event` with no more than one of the two flags keeps every event served: a side of its mask
-- that is set has its callback.
pub add_io_event-IsServed :
    (done : Bool) (fd proc : ℕ) (mask : Mask) (s : EventLoop)
    → (mask.epollin && mask.epollout) ≡ false
    → IsServed s
    → IsServed (add_io_event done fd proc mask s).1
unfolding add_io_event set_callback
add_io_event-IsServed done fd proc mask s one v g = ground (
  arith,
  lookup-insert fd g
      (record (set_callback mask proc (
        get_or (lookup fd s.io_evs) (record {
          mask = record { epollin = false; epollout = false };
          read_callback = none;
          write_callback = none;
        }))) {
          mask =
              join
                (get_or (lookup fd s.io_evs) (record {
                  mask = record { epollin = false; epollout = false };
                  read_callback = none;
                  write_callback = none;
                })).mask
                mask;
        })
      s.io_evs,
  v g,
  v fd,
)

-- `del_io_event` of an fd keeps every event served.
pub del_io_event-IsServed : (fd : ℕ) (s : EventLoop) → IsServed s → IsServed (del_io_event fd s).1
unfolding del_io_event
del_io_event-IsServed fd s v g = ground (arith, lookup-erase fd g s.io_evs, v g)

-- `del_io_event` of a mask keeps every event served.
pub del_io_mask-IsServed :
    (fd : ℕ) (mask : Mask) (s : EventLoop) → IsServed s → IsServed (del_io_mask fd mask s).1
unfolding del_io_mask
del_io_mask-IsServed fd mask s v g = elim (Option-cases (lookup fd s.io_evs)) [
  | inl e ↦ rw (e, del_io_mask) (v g)
  | inr (ev, e) ↦
      let kept : is_served ev ≡ true = ground (arith, v fd, e) in
      elim (Bool-cases ((without ev.mask mask).epollin || (without ev.mask mask).epollout)) [
        | inl more ↦
            simp (e, more, del_io_mask)
              (ground (
                arith,
                kept,
                v g,
                lookup-insert fd g (record ev { mask = without ev.mask mask }) s.io_evs,
              ))
        | inr last ↦ simp (e, last, del_io_mask) (del_io_event-IsServed fd s v g)
      ]
]

-- Where every event is served and the fired flags, one at least, are among those of the fd's mask: a
-- callback is called, and it is the one of the
-- fired side, the read side first.
pub fire_lem :
    (fd : ℕ) (events : Mask) (hup : Bool) (s : EventLoop) (ev : IoEvent)
    → IsServed s
    → lookup fd s.io_evs ≡ some ev
    → (events.epollin || events.epollout) ≡ true
    → ((not events.epollin || ev.mask.epollin) && (not events.epollout || ev.mask.epollout)) ≡ true
    → (cb : ℕ) × (fire fd events hup s ≡ ok (calls cb))
      × ((if events.epollin then ev.read_callback else ev.write_callback) ≡ some cb)
unfolding fire
fire_lem fd events hup s ev v e fired among =
    let kept : is_served ev ≡ true = ground (arith, v fd, e) in
    elim (Bool-cases events.epollin) [
      | inl reads ↦ elim (Option-cases ev.read_callback) [
        | inl lacks ↦ ground (arith, kept, lacks)
        | inr (cb, has) ↦ (cb, rw (e, fire) (rw reads (rw has refl)), rw reads has)
      ]
      | inr writes ↦ elim (Option-cases ev.write_callback) [
        | inl lacks ↦ ground (arith, kept, lacks)
        | inr (cb, has) ↦
            let out : events.epollout ≡ true = ground arith in
            (cb, rw (e, fire) (rw writes (rw out (rw has refl))), rw writes has)
      ]
    ]
