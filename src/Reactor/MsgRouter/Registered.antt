-- ===== src/Reactor/MsgRouter/Registered.antt =====
-- Which of several registrations an id has.
use lars.Base.{
  ℕ, ◌≡◌, ap, ◌||◌, List, [], ◌∷◌, Option, none, some, if◌then◌else◌, ◌==◌, arith, Bool-cases, inl,
  inr,
}
use lars.Base.Dict.{lookup, has_key, lookup-insert}
use lars.Reactor.MsgRouter.{MsgRouter, Handled, new_msg_router, register_msg_router, call}

module _ {C A : Type 0} where
  -- The registrations of a program, in order.
  abbrev pub register_all : List (ℕ × C × A) → MsgRouter C A → MsgRouter C A
  register_all [] r = r
  register_all ((msgid, cb, user_data) ∷ rest) r =
      register_all rest (register_msg_router msgid cb user_data r).1

  -- The first one of an id.
  abbrev pub first_of : ℕ → List (ℕ × C × A) → Option (C × A)
  first_of msgid [] = none
  first_of msgid ((k, cb, user_data) ∷ rest) =
      let later = first_of msgid rest in if k == msgid then some (cb, user_data) else later

  -- What a call with this registration is.
  abbrev pub handled_by : ℕ → List ℕ → Option (C × A) → Option (Handled C A)
  handled_by msgid body none = none
  handled_by msgid body (some p) =
      some (record { callback = p.0; user_data = some p.1; msgid = msgid; body = body })

  -- What a router that has entries already, and these registrations after them, makes of a call.
  abbrev call_or : ℕ → List ℕ → MsgRouter C A → Option (C × A) → Option (Handled C A)
  call_or msgid body r first =
      if has_key msgid r.router then call msgid body r else handled_by msgid body first

  call-register :
      (msgid k : ℕ) (body : List ℕ) (cb : C) (user_data : A) (r : MsgRouter C A)
      → call msgid body (register_msg_router k cb user_data r).1
        ≡ call_or msgid body r (if k == msgid then some (cb, user_data) else none)
  unfolding call register_msg_router
  call-register msgid k body cb user_data r =
      ground (arith, lookup-insert k msgid cb r.router, lookup-insert k msgid user_data r.args)

  has_key-register :
      (msgid k : ℕ) (cb : C) (user_data : A) (r : MsgRouter C A)
      → has_key msgid (register_msg_router k cb user_data r).1.router
        ≡ ((k == msgid) || has_key msgid r.router)
  unfolding register_msg_router
  has_key-register msgid k cb user_data r = elim (Bool-cases (k == msgid)) [
    | inl same ↦
        let e : k ≡ msgid = ground arith in
        ground (arith, lookup-insert k msgid cb r.router, ap (λ i. has_key i r.router) e)
    | inr other ↦ ground (arith, lookup-insert k msgid cb r.router)
  ]

  call-register_or :
      (msgid : ℕ) (body : List ℕ) (rs : List (ℕ × C × A)) (r : MsgRouter C A)
      → call msgid body (register_all rs r) ≡ call_or msgid body r (first_of msgid rs)
  unfolding call
  call-register_or msgid body [] r = ground arith
  call-register_or msgid body ((k, cb, user_data) ∷ rest) r = ground (
    arith,
    call-register_or msgid body rest (register_msg_router k cb user_data r).1,
    call-register msgid k body cb user_data r,
    has_key-register msgid k cb user_data r,
  )

  -- A message id is brought to the callback of its first registration, with the argument registered
  -- with it; later registrations of the id change nothing, and an id without one is ignored.
  pub call-register_all :
      (msgid : ℕ) (body : List ℕ) (rs : List (ℕ × C × A))
      → call msgid body (register_all rs new_msg_router) ≡ handled_by msgid body (first_of msgid rs)
  unfolding lookup
  call-register_all msgid body rs = call-register_or msgid body rs new_msg_router
