-- ===== src/Dns/System/Handler.antt =====
-- The steps of a handler, and the end of a connection.
use lars.Base.{
  ℕ, ◌≡◌, refl, sym, ◌∙◌, ap, true, false, not, ◌&&◌, List, [], ◌∷◌, ◌⊎◌, inl, inr, Option, none,
  some, ok, IfOk, of_IfOk, ◌==◌, arith, Bool-cases,
}
use lars.Base.Dict.{set_at}
use lars.Base.Sets.{contains}
use lars.Base.Words.{pair_key}
use lars.Agent.Messages.{GetRouteResponse}
use lars.Dns.Route.{get_hosts}
use lars.Dns.Subscribe.{SubscribeList, unsubscribe, route_response}
use lars.Dns.Subscribe.Booking.{is_booked}
use lars.Dns.Service.{Conn, clear_subscribe, unsubscribe_all}
use lars.Dns.Service.Hooks.{unsubscribe_all-is_booked}
use lars.Dns.System.Sent.{Says, Says-cons}
use lars.Dns.System.Invariant.{ConnAgrees, ConnAgrees-same, at_fd, Waits, Answers, IsSound}
use lars.Dns.System.{System, Handling, noted, read, read_hosts, answer, close}

pub read_hosts-IsSound :
    (fd modid cmdid : ℕ) (s : System)
    → s.handling fd ≡ some (noted modid cmdid)
    → IsSound s
    → IsSound (read_hosts fd modid cmdid s)
unfolding read_hosts route_response get_hosts
read_hosts-IsSound fd modid cmdid s busy h = record {
  agrees = h.agrees;
  keys = h.keys;
  knows = λ g k booked. elim (h.knows g k booked) [
    | inl says ↦ inl says
    | inr (inl waits) ↦ inr (inl waits)
    | inr (inr asks) ↦ inr (
        inr (elim (Bool-cases (fd == g)) [
          | inl here ↦
              let e : fd ≡ g = ground arith in
              let busy' : s.handling g ≡ some (noted modid cmdid) = rw e at busy in
              rw here (rw busy' at asks)
          | inr other ↦ rw other asks
        ]))
  ];
  answers = λ g. elim (Bool-cases (fd == g)) [
    | inl here ↦
        let e : fd ≡ g = ground arith in
        let busy' : s.handling g ≡ some (noted modid cmdid) = rw e at busy in
        rw here (rw busy' at (h.answers g), inl (λ ip port. refl))
    | inr other ↦ rw other (h.answers g)
  ];
}

module _ (fd : ℕ) (rsp : GetRouteResponse) (s : System) (busy : s.handling fd ≡ some (read rsp))
    (h : IsSound s) where
  at_hand : Answers s fd (some (read rsp))
  at_hand = rw busy at (h.answers fd)

  answered :
      (k : ℕ) → is_booked k fd s.list ≡ true → Says s.route k (rsp ∷ s.sent fd) ⊎ Waits s fd k
  answered k booked = elim (Bool-cases (pair_key rsp.modid rsp.cmdid == k)) [
    | inl same ↦
        let e : pair_key rsp.modid rsp.cmdid ≡ k = ground arith in
        elim at_hand.1 [
          | inl right ↦
              inl (
                Says-cons s.route k rsp (s.sent fd) (λ _. rw e at right)
                  λ no. absurd (ground arith))
          | inr waits ↦ inr (rw e at waits)
        ]
    | inr differs ↦ elim (h.knows fd k booked) [
      | inl says ↦
          inl (Says-cons s.route k rsp (s.sent fd) (λ yes_it. absurd (ground arith)) λ _. says)
      | inr (inl waits) ↦ inr waits
      | inr (inr asks) ↦
          let e : pair_key rsp.modid rsp.cmdid ≡ k = rw busy at asks in absurd (ground arith)
    ]
  ]

  pub answer-IsSound : IsSound (answer fd rsp s)
  unfolding answer
  answer-IsSound = record {
    agrees = h.agrees;
    keys = h.keys;
    knows = λ g k booked. elim (Bool-cases (fd == g)) [
      | inl here ↦
          let e : fd ≡ g = ground arith in
          rw here (elim (answered k (rw (sym e) at booked)) [
            | inl says ↦ inl says
            | inr waits ↦ inr (inl (rw e at waits))
          ])
      | inr other ↦ rw other (h.knows g k booked)
    ];
    answers = λ g. elim (Bool-cases (fd == g)) [
      | inl here ↦ rw here tt
      | inr other ↦ rw other (h.answers g)
    ];
  }

unsubscribe_all-push_list :
    (ms : List ℕ) (fd : ℕ) (l : SubscribeList) → (unsubscribe_all ms fd l).push_list ≡ l.push_list
unfolding unsubscribe_all unsubscribe
unsubscribe_all-push_list [] fd l = refl
unsubscribe_all-push_list (m ∷ ms) fd l =
    unsubscribe_all-push_list ms fd (unsubscribe m fd l) ∙ ground arith

-- What a closing connection leaves.
abbrev Cleared : ℕ → SubscribeList → Conn × SubscribeList → Type 0
Cleared fd l o =
    (o.0.fd ≡ fd)
    × (o.1.push_list ≡ l.push_list)
    × ((k g : ℕ) → is_booked k g o.1 ≡ (not (fd == g) && is_booked k g l))

clear_subscribe-Cleared :
    (fd : ℕ) (conn : Conn) (l : SubscribeList)
    → ConnAgrees fd l (some conn)
    → IfOk (Cleared fd l) (clear_subscribe conn l)
unfolding clear_subscribe
clear_subscribe-Cleared fd conn l (ef, (sub, es), agree) =
    rw (es, clear_subscribe)
      (
        ef,
        unsubscribe_all-push_list sub conn.fd l,
        λ k g. ground (
          arith,
          agree k,
          es,
          unsubscribe_all-is_booked sub conn.fd k g l,
          ap (λ f. is_booked k f l) {x = conn.fd} {y = g},
        ),
      )

module _ (fd : ℕ) (conn : Conn) (o : Conn × SubscribeList) (s : System)
    (there : s.conns fd ≡ some conn) (idle : s.handling fd ≡ none)
    (cleared : clear_subscribe conn s.list ≡ ok o) (h : IsSound s) where
  cleared_lem : Cleared fd s.list o
  cleared_lem =
      of_IfOk (Cleared fd s.list) (clear_subscribe conn s.list)
        (clear_subscribe-Cleared fd conn s.list (at_fd fd s.list (s.conns fd) there (h.agrees fd)))
        cleared

  was_booked : (k g : ℕ) → is_booked k g o.1 ≡ true → is_booked k g s.list ≡ true
  was_booked k g booked = ground (arith, cleared_lem.2 k g)

  close-Waits : (g k : ℕ) → Waits s g k → Waits (close o s) g k
  unfolding close
  close-Waits g k (inl told) = inl (ap (λ m. contains k (set_at g m)) cleared_lem.1 ∙ told)
  close-Waits g k (inr owed) = inr owed

  close-Answers :
      (g : ℕ) (w : Option Handling) → (fd == g) ≡ false → Answers s g w → Answers (close o s) g w
  unfolding close
  close-Answers g none other a = a
  close-Answers g (some (noted m c)) other a = ground (arith, cleared_lem.2 (pair_key m c) g)
  close-Answers g (some (read rsp)) other (booked, inl right) =
      (ground (arith, cleared_lem.2 (pair_key rsp.modid rsp.cmdid) g), inl right)
  close-Answers g (some (read rsp)) other (booked, inr waits) =
      (ground (arith, cleared_lem.2 (pair_key rsp.modid rsp.cmdid) g), inr (close-Waits g _ waits))

  pub close-IsSound : IsSound (close o s)
  unfolding close
  close-IsSound = record {
    agrees = λ g. elim (Bool-cases (fd == g)) [
      | inl here ↦
          let here' : (o.0.fd == g) ≡ true = ap (λ f. f == g) cleared_lem.0 ∙ here in
          rw here' (λ k. ground (arith, cleared_lem.2 k g))
      | inr other ↦
          let other' : (o.0.fd == g) ≡ false = ap (λ f. f == g) cleared_lem.0 ∙ other in
          rw other' (
            ConnAgrees-same g s.list o.1 (s.conns g) (λ k. ground (arith, cleared_lem.2 k g))
              (h.agrees g))
    ];
    keys = λ g k booked. h.keys g k (was_booked k g booked);
    knows = λ g k booked. elim (h.knows g k (was_booked k g booked)) [
      | inl says ↦ inl says
      | inr (inl waits) ↦ inr (inl (close-Waits g k waits))
      | inr (inr asks) ↦ inr (inr asks)
    ];
    answers = λ g. elim (Bool-cases (fd == g)) [
      | inl here ↦
          let e : fd ≡ g = ground arith in
          let idle' : s.handling g ≡ none = rw e at idle in rw idle' tt
      | inr other ↦ close-Answers g (s.handling g) other (h.answers g)
    ];
  }
