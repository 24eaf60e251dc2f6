-- ===== src/Reactor/EventLoop/Watched.antt =====
-- What of an event has to stay until it is its turn to fire.
use lars.Base.{
  ℕ, ◌≡◌, refl, Bool, true, false, not, ◌&&◌, ◌||◌, Option, none, some, ◌==◌, if◌then◌else◌, ok,
  Option-cases, Bool-cases, inl, inr, ◌∙◌, arith,
}
use lars.Base.Dict.{lookup}
use lars.Reactor.EventLoop.{join, IoEvent, EventLoop, FiredEvent, fire, calls}
use lars.Reactor.EventLoop.Callbacks.{IsServed, fire_lem}

-- The callback of the side that has fired, the read side first.
abbrev pub chosen : EventLoop → FiredEvent → Option ℕ
chosen s e = elim (lookup e.fd s.io_evs) [
  | none ↦ none
  | some ev ↦ if e.events.epollin then ev.read_callback else ev.write_callback
]

-- The fd has an event, a side of it has fired, and only sides that its mask has.
abbrev pub is_expected : EventLoop → FiredEvent → Bool
is_expected s e = elim (lookup e.fd s.io_evs) [
  | none ↦ false
  | some ev ↦
      (e.events.epollin || e.events.epollout)
      && ((not e.events.epollin || ev.mask.epollin) && (not e.events.epollout || ev.mask.epollout))
]

-- A side that is watched, with the callback `cb`, is still watched with it.
abbrev pub Side : Bool → Option ℕ → Bool → Option ℕ → Type 0
Side false cb watched cb' = Unit
Side true cb watched cb' = (watched ≡ true) × (cb' ≡ cb)

-- What an event asks for, the other one asks for as well.
abbrev pub Includes : Option IoEvent → Option IoEvent → Type 0
Includes none new = Unit
Includes (some ev) none = ⊥
Includes (some ev) (some ev') =
    Side ev.mask.epollin ev.read_callback ev'.mask.epollin ev'.read_callback
    × Side ev.mask.epollout ev.write_callback ev'.mask.epollout ev'.write_callback

-- The other fds stay watched as they are, or more.
abbrev pub Keeps : ℕ → EventLoop → EventLoop → Type 0
Keeps fd s s' = (g : ℕ) → (fd == g) ≡ false → Includes (lookup g s.io_evs) (lookup g s'.io_evs)

Side-refl : (watched : Bool) (cb : Option ℕ) → Side watched cb watched cb
Side-refl false cb = tt
Side-refl true cb = (refl, refl)

pub Includes-refl : (o : Option IoEvent) → Includes o o
Includes-refl none = tt
Includes-refl (some ev) =
    (Side-refl ev.mask.epollin ev.read_callback, Side-refl ev.mask.epollout ev.write_callback)

Side-trans : (a b c : Bool) (p q r : Option ℕ) → Side a p b q → Side b q c r → Side a p c r
Side-trans false b c p q r x y = tt
Side-trans true false c p q r x y = ground (arith, x.0)
Side-trans true true c p q r x y = (y.0, y.1 ∙ x.1)

pub Includes-trans : (o p q : Option IoEvent) → Includes o p → Includes p q → Includes o q
Includes-trans none p q x y = tt
Includes-trans (some a) none q x y = elim x [ ]
Includes-trans (some a) (some b) none x y = elim y [ ]
Includes-trans (some a) (some b) (some c) x y = (
  Side-trans a.mask.epollin b.mask.epollin c.mask.epollin a.read_callback b.read_callback
      c.read_callback x.0 y.0,
  Side-trans a.mask.epollout b.mask.epollout c.mask.epollout a.write_callback b.write_callback
      c.write_callback x.1 y.1,
)

Includes-some :
    (ev : IoEvent) (o : Option IoEvent)
    → Includes (some ev) o
    → (ev' : IoEvent) × (o ≡ some ev') × Includes (some ev) (some ev')
Includes-some ev none x = elim x [ ]
Includes-some ev (some ev') x = (ev', refl, x)

-- A side that has fired and was watched.
Side-fired : (a b : Bool) (p q : Option ℕ) → Side a p b q → a ≡ true → (b ≡ true) × (q ≡ p)
Side-fired false b p q x y = ground arith
Side-fired true b p q x y = x

-- One fired event, for an event that asks for less than the loop's.
fire-Includes :
    (s : EventLoop) (e : FiredEvent) (ev ev' : IoEvent)
    → IsServed s
    → lookup e.fd s.io_evs ≡ some ev'
    → Includes (some ev) (some ev')
    → (e.events.epollin || e.events.epollout) ≡ true
    → ((not e.events.epollin || ev.mask.epollin) && (not e.events.epollout || ev.mask.epollout))
      ≡ true
    → (cb : ℕ) × (fire e.fd e.events e.hup s ≡ ok (calls cb))
      × ((if e.events.epollin then ev.read_callback else ev.write_callback) ≡ some cb)
fire-Includes s e ev ev' v there more fired among =
    let ins =
      Side-fired ev.mask.epollin ev'.mask.epollin ev.read_callback ev'.read_callback more.0 in
    let outs =
      Side-fired ev.mask.epollout ev'.mask.epollout ev.write_callback ev'.write_callback more.1 in
    elim (Bool-cases ev.mask.epollin) [
      | inl a ↦ elim (Bool-cases ev.mask.epollout) [
        | inl b ↦
            let found =
              fire_lem e.fd e.events e.hup s ev' v there fired (ground (arith, ins a, outs b)) in
            (found.0, found.1, ground (arith, found.2, ins a, outs b))
        | inr b ↦
            let found = fire_lem e.fd e.events e.hup s ev' v there fired (ground (arith, ins a)) in
            (found.0, found.1, ground (arith, found.2, ins a))
      ]
      | inr a ↦
          let b : ev.mask.epollout ≡ true = ground arith in
          let found = fire_lem e.fd e.events e.hup s ev' v there fired (ground (arith, outs b)) in
          (found.0, found.1, ground (arith, found.2, outs b))
    ]

-- One event that is expected.
pub fire-chosen :
    (s0 s : EventLoop) (e : FiredEvent)
    → IsServed s
    → Includes (lookup e.fd s0.io_evs) (lookup e.fd s.io_evs)
    → is_expected s0 e ≡ true
    → (cb : ℕ) × (fire e.fd e.events e.hup s ≡ ok (calls cb)) × (chosen s0 e ≡ some cb)
fire-chosen s0 s e v same x = elim (Option-cases (lookup e.fd s0.io_evs)) [
  | inl lacks ↦ ground (arith, lacks)
  | inr (ev, has) ↦
      let (ev', there, more) = Includes-some ev (lookup e.fd s.io_evs) (rw has at same) in
      let found =
        fire-Includes s e ev ev' v there more (ground (arith, has)) (ground (arith, has)) in
      (found.0, found.1, rw (has, chosen) found.2)
]

-- An event that also waits for its write, where it did not before.
pub Includes-asked :
    (ev : IoEvent) (proc : ℕ)
    → ev.mask.epollout ≡ false
    → Includes (some ev) (
        some (record ev {
          mask = join ev.mask (record { epollin = false; epollout = true });
          write_callback = some proc;
        }))
Includes-asked ev proc idle = (
  elim ev.mask.epollin as (λ b. Side b ev.read_callback (b || false) ev.read_callback) [
    | false ↦ tt
    | true ↦ (refl, refl)
  ],
  rw idle tt,
)
