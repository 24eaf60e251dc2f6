-- ===== src/Dns/Service/Hooks.antt =====
-- A connection's own set and the subscription list agree, from its first hook to its last.
use lars.Base.{
  ℕ, ◌≡◌, refl, ap, Bool, false, not, ◌&&◌, ◌||◌, List, [], ◌∷◌, none, some, inl, inr, ◌==◌, ok,
  arith, Bool-cases, Option-cases,
}
use lars.Base.Sets.{contains}
use lars.Base.Words.{pair_key}
use lars.Dns.Route.{Route}
use lars.Dns.Subscribe.{SubscribeList, unsubscribe}
use lars.Dns.Subscribe.Booking.{is_booked, is_booked-subscribe, is_booked-unsubscribe}
use lars.Dns.Service.{Conn, get_route, clear_subscribe, unsubscribe_all}

-- Is the module in the connection's set?
abbrev pub is_noted : ℕ → Conn → Bool
is_noted k conn = elim conn.param [ none ↦ false | some sub_list ↦ contains k sub_list ]

-- `get_route` with a set in place: the module is in the set afterwards, the other modules are in it as
-- before, and if the set and the subscriptions of the connection's fd agreed, they still agree.
pub get_route-is_booked :
    (r : Route) (modid cmdid : ℕ) (conn : Conn) (s : SubscribeList) (sub : List ℕ)
    → conn.param ≡ some sub
    → ((k : ℕ) → is_booked k conn.fd s ≡ is_noted k conn)
    → (k : ℕ)
    → (is_noted k (get_route r modid cmdid conn s).1
        ≡ ((pair_key modid cmdid == k) || is_noted k conn))
      × (is_booked k conn.fd (get_route r modid cmdid conn s).2
          ≡ is_noted k (get_route r modid cmdid conn s).1)
unfolding get_route contains
get_route-is_booked r modid cmdid conn s sub p agree k =
    elim (Bool-cases (contains (pair_key modid cmdid) sub)) [
      | inl old ↦
          rw (p, get_route)
            (rw (old, get_route)
              (rw p (
                ground (
                  arith,
                  agree k,
                  p,
                  ap (λ j. contains j sub) {x = pair_key modid cmdid} {y = k},
                ),
                ground (arith, agree k, p),
              )))
      | inr new ↦
          rw (p, get_route)
            (rw (new, get_route)
              (
                ground (arith, p),
                ground (
                  arith,
                  agree k,
                  p,
                  is_booked-subscribe (pair_key modid cmdid) conn.fd k conn.fd s,
                ),
              ))
    ]

-- `get_route` leaves the subscriptions of an fd other than the connection's as they were.
pub get_route-other :
    (r : Route) (modid cmdid : ℕ) (conn : Conn) (s : SubscribeList) (k g : ℕ)
    → (conn.fd == g) ≡ false
    → is_booked k g (get_route r modid cmdid conn s).2 ≡ is_booked k g s
unfolding get_route
get_route-other r modid cmdid conn s k g ne = elim (Option-cases conn.param) [
  | inl e ↦ rw (e, get_route) refl
  | inr (sub, e) ↦
      rw (e, get_route)
        (elim (Bool-cases (contains (pair_key modid cmdid) sub)) [
          | inl old ↦ rw old refl
          | inr new ↦
              rw new (ground (arith, is_booked-subscribe (pair_key modid cmdid) conn.fd k g s))
        ])
]

pub unsubscribe_all-is_booked :
    (ms : List ℕ) (fd k g : ℕ) (s : SubscribeList)
    → is_booked k g (unsubscribe_all ms fd s)
      ≡ (not (contains k ms && (fd == g)) && is_booked k g s)
unfolding unsubscribe_all contains
unsubscribe_all-is_booked [] fd k g s = refl
unsubscribe_all-is_booked (m ∷ ms) fd k g s = ground (
  arith,
  unsubscribe_all-is_booked ms fd k g (unsubscribe m fd s),
  is_booked-unsubscribe m fd k g s,
)

-- `clear_subscribe` of a connection whose set agrees with its subscriptions leaves its fd without a
-- subscription and the other fds with theirs.
pub clear_subscribe-is_booked :
    (conn : Conn) (s : SubscribeList) (sub : List ℕ)
    → conn.param ≡ some sub
    → ((k : ℕ) → is_booked k conn.fd s ≡ is_noted k conn)
    → (o : Conn × SubscribeList) × (clear_subscribe conn s ≡ ok o)
      × (o.0.param ≡ none)
      × ((k g : ℕ) → is_booked k g o.1 ≡ (not (conn.fd == g) && is_booked k g s))
unfolding clear_subscribe
clear_subscribe-is_booked conn s sub p agree = (
  (record conn { param = none }, unsubscribe_all sub conn.fd s),
  rw (p, clear_subscribe) refl,
  refl,
  λ k g. ground (
    arith,
    agree k,
    p,
    unsubscribe_all-is_booked sub conn.fd k g s,
    ap (λ f. is_booked k f s) {x = conn.fd} {y = g},
  ),
)
