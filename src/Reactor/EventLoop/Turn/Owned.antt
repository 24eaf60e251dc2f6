-- ===== src/Reactor/EventLoop/Turn/Owned.antt =====
-- Callbacks that call the loop for their own fd, or let another one wait for its write, as
-- `send_message` of another connection does.
use lars.Base.{
  ℕ, ◌≡◌, refl, Bool, true, false, not, ◌&&◌, ◌||◌, List, [], ◌∷◌, Option, none, some, inl, inr,
  if◌then◌else◌, Option-cases, Bool-cases, arith, ◌∙◌, ◌==◌, ==_iff, subst,
}
use lars.Base.Dict.{Dict, lookup, insert, lookup-insert, lookup-erase}
use lars.Reactor.EventLoop.{
  Mask, IoEvent, EventLoop, add_io_event, del_io_event, del_io_mask, add_task, set_callback,
  without,
}
use lars.Reactor.EventLoop.Callbacks.{
  IsServed, add_io_event-IsServed, del_io_event-IsServed, del_io_mask-IsServed,
}
use lars.Reactor.EventLoop.Watched.{Includes-asked, Includes, Includes-refl, Includes-trans, Keeps}

-- A call of the loop: the answer of `epoll_ctl` and the callback of `add_io_event`, and the task of
-- `add_task`.
pub data Operation : Type 0 where
  adds : Bool → ℕ → Mask → Operation
  deletes_all : Operation
  deletes_mask : Mask → Operation
  adds_task : ℕ → Operation
  asks_write : Bool → ℕ → ℕ → Operation

abbrev out_only : Mask
out_only = record { epollin = false; epollout = true }

abbrev pub is_writing : ℕ → EventLoop → Bool
is_writing fd s = elim (lookup fd s.io_evs) [ none ↦ false | some ev ↦ ev.mask.epollout ]

unfoldable pub operate : ℕ → Operation → EventLoop → EventLoop
unfolding add_io_event del_io_event del_io_mask add_task
operate fd (adds done proc mask) s = (add_io_event done fd proc mask s).1
operate fd deletes_all s = (del_io_event fd s).1
operate fd (deletes_mask mask) s = (del_io_mask fd mask s).1
operate fd (adds_task t) s = add_task t s
operate fd (asks_write done other proc) s =
    if is_writing other s then s else (add_io_event done other proc out_only s).1

unfoldable pub operate_all : ℕ → List Operation → EventLoop → EventLoop
operate_all fd [] s = s
operate_all fd (o ∷ os) s = operate_all fd os (operate fd o s)

-- No `add_io_event` has both flags.
abbrev pub one_sided : List Operation → Bool
one_sided [] = true
one_sided (adds done proc mask ∷ os) = not (mask.epollin && mask.epollout) && one_sided os
one_sided (deletes_all ∷ os) = one_sided os
one_sided (deletes_mask mask ∷ os) = one_sided os
one_sided (adds_task t ∷ os) = one_sided os
one_sided (asks_write done other proc ∷ os) = one_sided os

inserted :
    (fd g : ℕ) (new : IoEvent) (m : Dict IoEvent)
    → (fd == g) ≡ false
    → lookup g (insert fd new m) ≡ lookup g m
inserted fd g new m far = lookup-insert fd g new m ∙ rw far refl

Includes-of_same : {a b : Option IoEvent} → b ≡ a → Includes a b
Includes-of_same {a} e = rw e (Includes-refl a)

add_io_event-other :
    (done : Bool) (fd proc g : ℕ) (mask : Mask) (s : EventLoop)
    → (fd == g) ≡ false
    → lookup g (add_io_event done fd proc mask s).1.io_evs ≡ lookup g s.io_evs
unfolding add_io_event
add_io_event-other done fd proc g mask s far = elim (Bool-cases done) [
  | inl d ↦ rw d (inserted fd g _ s.io_evs far)
  | inr d ↦ rw d (inserted fd g _ s.io_evs far)
]

del_io_mask-other :
    (fd g : ℕ) (mask : Mask) (s : EventLoop)
    → (fd == g) ≡ false
    → lookup g (del_io_mask fd mask s).1.io_evs ≡ lookup g s.io_evs
unfolding del_io_event del_io_mask
del_io_mask-other fd g mask s far = elim (Option-cases (lookup fd s.io_evs)) [
  | inl lacks ↦ rw (lacks, del_io_mask) refl
  | inr (ev, has) ↦
      elim (Bool-cases ((without ev.mask mask).epollin || (without ev.mask mask).epollout)) [
        | inl more ↦
            simp (has, more, del_io_mask)
              (inserted fd g (record ev { mask = without ev.mask mask }) s.io_evs far)
        | inr last ↦ simp (has, last, del_io_mask) (lookup-erase fd g s.io_evs ∙ rw far refl)
      ]
]

inserted_at : (fd : ℕ) (m : Dict IoEvent) (new : IoEvent) → lookup fd (insert fd new m) ≡ some new
inserted_at fd m new = lookup-insert fd fd new m ∙ rw ((==_iff fd fd).1 refl) refl

-- A write that is asked for leaves what was asked for before.
asked_at :
    (done : Bool) (fd proc : ℕ) (s : EventLoop)
    → is_writing fd s ≡ false
    → Includes (lookup fd s.io_evs) (lookup fd (add_io_event done fd proc out_only s).1.io_evs)
unfolding add_io_event set_callback
asked_at done fd proc s idle = elim (Option-cases (lookup fd s.io_evs)) [
  | inl lacks ↦ rw lacks tt
  | inr (ev, has) ↦
      let more = Includes-asked ev proc (ground (arith, has)) in
      let found = inserted_at fd s.io_evs in
      elim (Bool-cases done) [
        | inl d ↦ rw d (rw (found _) (rw has more))
        | inr d ↦ rw d (rw (found _) (rw has more))
      ]
]

asked :
    (done : Bool) (fd proc : ℕ) (s : EventLoop) (g : ℕ)
    → is_writing fd s ≡ false
    → Includes (lookup g s.io_evs) (lookup g (add_io_event done fd proc out_only s).1.io_evs)
asked done fd proc s g idle = elim (Bool-cases (fd == g)) [
  | inl same ↦
      subst
        (λ (a : ℕ).
          Includes (lookup a s.io_evs) (lookup a (add_io_event done fd proc out_only s).1.io_evs))
        ((==_iff fd g).0 same) (asked_at done fd proc s idle)
  | inr far ↦ Includes-of_same (add_io_event-other done fd proc g out_only s far)
]

-- What one call leaves of the other fds.
operate-Includes :
    (fd : ℕ) (o : Operation) (s : EventLoop) (g : ℕ)
    → (fd == g) ≡ false
    → Includes (lookup g s.io_evs) (lookup g (operate fd o s).io_evs)
unfolding operate del_io_event add_task
operate-Includes fd (adds done proc mask) s g far =
    Includes-of_same (add_io_event-other done fd proc g mask s far)
operate-Includes fd deletes_all s g far =
    Includes-of_same (lookup-erase fd g s.io_evs ∙ rw far refl)
operate-Includes fd (deletes_mask mask) s g far =
    Includes-of_same (del_io_mask-other fd g mask s far)
operate-Includes fd (adds_task t) s g far = Includes-refl (lookup g s.io_evs)
operate-Includes fd (asks_write done other proc) s g far = elim (Bool-cases (is_writing other s)) [
  | inl waits ↦ rw waits (Includes-refl (lookup g s.io_evs))
  | inr idle ↦ rw idle (asked done other proc s g idle)
]

operate-IsServed :
    (fd : ℕ) (o : Operation) (s : EventLoop)
    → one_sided (o ∷ []) ≡ true
    → IsServed s
    → IsServed (operate fd o s)
unfolding operate add_task
operate-IsServed fd (adds done proc mask) s one v =
    add_io_event-IsServed done fd proc mask s (ground arith) v
operate-IsServed fd deletes_all s one v = del_io_event-IsServed fd s v
operate-IsServed fd (deletes_mask mask) s one v = del_io_mask-IsServed fd mask s v
operate-IsServed fd (adds_task t) s one v = v
operate-IsServed fd (asks_write done other proc) s one v = elim (Bool-cases (is_writing other s)) [
  | inl waits ↦ rw waits v
  | inr idle ↦ rw idle (add_io_event-IsServed done other proc out_only s refl v)
]

one_sided-head :
    (o : Operation) (os : List Operation)
    → one_sided (o ∷ os) ≡ true
    → (one_sided (o ∷ []) ≡ true) × (one_sided os ≡ true)
one_sided-head (adds done proc mask) os x = (ground arith, ground arith)
one_sided-head deletes_all os x = (refl, x)
one_sided-head (deletes_mask mask) os x = (refl, x)
one_sided-head (adds_task t) os x = (refl, x)
one_sided-head (asks_write done other proc) os x = (refl, x)

-- Calls for the callback's own fd keep every event served and leave those of the other fds.
pub operate_all-Keeps :
    (fd : ℕ) (os : List Operation) (s : EventLoop)
    → one_sided os ≡ true
    → IsServed s
    → IsServed (operate_all fd os s) × Keeps fd s (operate_all fd os s)
unfolding operate_all
operate_all-Keeps fd [] s one v = (v, λ g far. Includes-refl (lookup g s.io_evs))
operate_all-Keeps fd (o ∷ os) s one v =
    let (single, others) = one_sided-head o os one in
    let rest = operate_all-Keeps fd os (operate fd o s) others (operate-IsServed fd o s single v) in
    (
      rest.0,
      λ g far.
          Includes-trans (lookup g s.io_evs) (lookup g (operate fd o s).io_evs)
            (lookup g (operate_all fd os (operate fd o s)).io_evs) (operate-Includes fd o s g far)
            (rest.1 g far),
    )
