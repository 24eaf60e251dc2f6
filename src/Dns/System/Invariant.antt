-- ===== src/Dns/System/Invariant.antt =====
-- What holds in every state of lars_dns, and that the steps of the connections keep it.
use lars.Base.{
  ℕ, ◌<◌, ◌^◌, ◌≡◌, refl, sym, ◌∙◌, ap, true, false, ◌&&◌, ◌||◌, List, [], ◌∷◌, ◌⊎◌, inl, inr,
  Option, none, some, ◌==◌, arith, Bool-cases, get_or,
}
use lars.Base.Dict.{set_at}
use lars.Base.Sets.{contains}
use lars.Base.Words.{pair_key, key_hi, key_lo, key_hi-pair_key, key_lo-pair_key}
use lars.Dns.Route.{Route}
use lars.Dns.Subscribe.{SubscribeList, subscribe}
use lars.Dns.Subscribe.Booking.{is_booked}
use lars.Dns.Subscribe.Publishing.{is_pushed}
use lars.Dns.Subscribe.Current.{hosts_of, SameHosts}
use lars.Dns.Service.{Conn, create_subscribe, get_route}
use lars.Dns.Service.Hooks.{is_noted, get_route-is_booked, get_route-other}
use lars.Dns.System.Sent.{Says}
use lars.Dns.System.{System, Handling, noted, read, set_at_fd, connect, note}

-- A connection's own set and its subscriptions agree; an fd without a connection has none.
abbrev pub ConnAgrees : ℕ → SubscribeList → Option Conn → Type 0
ConnAgrees fd l none = (k : ℕ) → is_booked k fd l ≡ false
ConnAgrees fd l (some c) =
    (c.fd ≡ fd)
    × ((sub : List ℕ) × (c.param ≡ some sub))
    × ((k : ℕ) → is_booked k c.fd l ≡ is_noted k c)

-- A key whose halves can be read back.
abbrev pub IsKey : ℕ → Type 0
IsKey k = pair_key (key_hi k) (key_lo k) ≡ k

-- The fd is to be told of the module, or will be when `publish` is called.
abbrev pub Waits : System → ℕ → ℕ → Type 0
Waits s fd k = (is_pushed fd k s.list ≡ true) ⊎ (contains k (get_or s.owed []) ≡ true)

abbrev pub Asks : ℕ → Option Handling → Type 0
Asks k none = ⊥
Asks k (some (noted modid cmdid)) = pair_key modid cmdid ≡ k
Asks k (some (read rsp)) = pair_key rsp.modid rsp.cmdid ≡ k

-- The last message is right, or news wait, or the handler is about to answer.
abbrev pub Knows : System → ℕ → ℕ → Type 0
Knows s fd k = Says s.route k (s.sent fd) ⊎ (Waits s fd k ⊎ Asks k (s.handling fd))

-- The answer that the handler has at hand is right, or news wait.
abbrev pub Answers : System → ℕ → Option Handling → Type 0
Answers s fd none = Unit {0}
Answers s fd (some (noted modid cmdid)) = is_booked (pair_key modid cmdid) fd s.list ≡ true
Answers s fd (some (read rsp)) =
    let k = pair_key rsp.modid rsp.cmdid in
    (is_booked k fd s.list ≡ true) × (SameHosts rsp.host (hosts_of s.route k) ⊎ Waits s fd k)

pub record IsSound (s : System) : Type 0 where
  pub agrees : (fd : ℕ) → ConnAgrees fd s.list (s.conns fd)
  pub keys : (fd k : ℕ) → is_booked k fd s.list ≡ true → IsKey k
  pub knows : (fd k : ℕ) → is_booked k fd s.list ≡ true → Knows s fd k
  pub answers : (fd : ℕ) → Answers s fd (s.handling fd)

pub ConnAgrees-same :
    (fd : ℕ) (l l' : SubscribeList) (c : Option Conn)
    → ((k : ℕ) → is_booked k fd l' ≡ is_booked k fd l)
    → ConnAgrees fd l c
    → ConnAgrees fd l' c
ConnAgrees-same fd l l' none same a = λ k. same k ∙ a k
ConnAgrees-same fd l l' (some c) same a = (
  a.0,
  a.1,
  λ k. ap (λ g. is_booked k g l') a.0 ∙ same k ∙ ap (λ g. is_booked k g l) (sym a.0) ∙ a.2 k,
)

-- A connection, and another at the same fd.
pub at_fd :
    (fd : ℕ) (l : SubscribeList) (c : Option Conn) {conn : Conn}
    → c ≡ some conn
    → ConnAgrees fd l c
    → ConnAgrees fd l (some conn)
at_fd fd l c e a = rw e at a

pub not_booked :
    (fd k : ℕ) (l : SubscribeList) (c : Option Conn)
    → c ≡ none
    → ConnAgrees fd l c
    → is_booked k fd l ≡ false
not_booked fd k l c e a = let a' : ConnAgrees fd l none = rw e at a in a' k

pub connect-IsSound : (fd : ℕ) (s : System) → s.conns fd ≡ none → IsSound s → IsSound (connect fd s)
unfolding connect create_subscribe contains
connect-IsSound fd s free h = record {
  agrees = λ g. elim (Bool-cases (fd == g)) [
    | inl here ↦
        let e : fd ≡ g = ground arith in
        rw here (e, ([], refl), λ k. not_booked fd k s.list (s.conns fd) free (h.agrees fd))
    | inr other ↦ rw other (h.agrees g)
  ];
  keys = h.keys;
  knows = λ g k booked. elim (Bool-cases (fd == g)) [
    | inl here ↦
        let e : fd ≡ g = ground arith in
        let no : is_booked k g s.list ≡ false =
          rw (sym e) (not_booked fd k s.list (s.conns fd) free (h.agrees fd)) in
        let absurd_it : ⊥ = ground arith in absurd absurd_it
    | inr other ↦ rw other (h.knows g k booked)
  ];
  answers = h.answers;
}

get_route-push_list :
    (r : Route) (modid cmdid : ℕ) (conn : Conn) (l : SubscribeList)
    → (get_route r modid cmdid conn l).2.push_list ≡ l.push_list
unfolding get_route subscribe
get_route-push_list r modid cmdid conn l = ground arith

get_route-conn :
    (r : Route) (modid cmdid : ℕ) (conn : Conn) (l : SubscribeList) (sub : List ℕ)
    → conn.param ≡ some sub
    → ((get_route r modid cmdid conn l).1.fd ≡ conn.fd)
      × ((sub' : List ℕ) × ((get_route r modid cmdid conn l).1.param ≡ some sub'))
unfolding get_route
get_route-conn r modid cmdid conn l sub e =
    elim (Bool-cases (contains (pair_key modid cmdid) sub)) [
      | inl old ↦ rw (e, get_route) (rw old (refl, (sub, e)))
      | inr new ↦ rw (e, get_route) (rw new (refl, (pair_key modid cmdid ∷ sub, refl)))
    ]

module _ (s : System) (h : IsSound s) (fd : ℕ) (conn : Conn) (there : s.conns fd ≡ some conn) where
  conn_agrees : ConnAgrees fd s.list (some conn)
  conn_agrees = at_fd fd s.list (s.conns fd) there (h.agrees fd)

  module _ (modid cmdid : ℕ) where
    is_booked-note :
        (k g : ℕ)
        → is_booked k g (get_route s.route modid cmdid conn s.list).2
          ≡ ((pair_key modid cmdid == k) && (conn.fd == g) || is_booked k g s.list)
    is_booked-note k g = elim (Bool-cases (conn.fd == g)) [
      | inl here ↦
          let e : conn.fd ≡ g = ground arith in
          let (sub, es) = conn_agrees.1 in
          let o = get_route-is_booked s.route modid cmdid conn s.list sub es conn_agrees.2 k in
          ground (
            arith,
            o.0,
            o.1,
            conn_agrees.2 k,
            ap (λ f. is_booked k f s.list) e,
            ap (λ f. is_booked k f (get_route s.route modid cmdid conn s.list).2) e,
          )
      | inr other ↦ ground (arith, get_route-other s.route modid cmdid conn s.list k g other)
    ]

    note-ConnAgrees :
        (g : ℕ)
        → ConnAgrees g
            (get_route s.route modid cmdid conn s.list).2
            (set_at_fd conn.fd (some (get_route s.route modid cmdid conn s.list).1) s.conns g)
    note-ConnAgrees g = elim (Bool-cases (conn.fd == g)) [
      | inl here ↦
          let e : conn.fd ≡ g = ground arith in
          let (sub, es) = conn_agrees.1 in
          let (ef, sub') = get_route-conn s.route modid cmdid conn s.list sub es in
          rw here (
            ef ∙ e,
            sub',
            λ k.
                ap (λ f. is_booked k f (get_route s.route modid cmdid conn s.list).2) ef
                ∙ (get_route-is_booked s.route modid cmdid conn s.list sub es conn_agrees.2 k).1,
          )
      | inr other ↦ rw other (
          ConnAgrees-same g s.list (get_route s.route modid cmdid conn s.list).2 (s.conns g)
            (λ k. get_route-other s.route modid cmdid conn s.list k g other) (h.agrees g))
    ]

    note-Waits : (g k : ℕ) → Waits s g k → Waits (note modid cmdid conn s) g k
    unfolding note
    note-Waits g k (inl told) = inl (
        ap (λ m. contains k (set_at g m)) (get_route-push_list s.route modid cmdid conn s.list)
        ∙ told)
    note-Waits g k (inr owed) = inr owed

    note-Answers :
        (g : ℕ) (w : Option Handling) → Answers s g w → Answers (note modid cmdid conn s) g w
    unfolding note
    note-Answers g none a = a
    note-Answers g (some (noted m c)) a = ground (arith, is_booked-note (pair_key m c) g)
    note-Answers g (some (read rsp)) (booked, inl right) =
        (ground (arith, is_booked-note (pair_key rsp.modid rsp.cmdid) g), inl right)
    note-Answers g (some (read rsp)) (booked, inr waits) = (
      ground (arith, is_booked-note (pair_key rsp.modid rsp.cmdid) g),
      inr (note-Waits g _ waits),
    )

    -- A handler that begins asks for its module; nobody else asks for less.
    note-Knows :
        (g k : ℕ)
        → s.handling fd ≡ none
        → is_booked k g (get_route s.route modid cmdid conn s.list).2 ≡ true
        → Knows (note modid cmdid conn s) g k
    unfolding note
    note-Knows g k idle booked = elim (Bool-cases (conn.fd == g)) [
      | inl here ↦ elim (Bool-cases (pair_key modid cmdid == k)) [
        | inl same ↦ let e : pair_key modid cmdid ≡ k = ground arith in inr (inr (rw here e))
        | inr differs ↦ elim (h.knows g k (ground (arith, is_booked-note k g))) [
          | inl says ↦ inl says
          | inr (inl waits) ↦ inr (inl (note-Waits g k waits))
          | inr (inr asks) ↦
              let e : fd ≡ g = ground (arith, conn_agrees.0) in
              let idle' : s.handling g ≡ none = rw e at idle in absurd (rw idle' at asks)
        ]
      ]
      | inr other ↦ elim (h.knows g k (ground (arith, is_booked-note k g))) [
        | inl says ↦ inl says
        | inr (inl waits) ↦ inr (inl (note-Waits g k waits))
        | inr (inr asks) ↦ inr (inr (rw other asks))
      ]
    ]

    pub note-IsSound :
        s.handling fd ≡ none → modid < 2 ^ 31 → cmdid < 2 ^ 31 → IsSound (note modid cmdid conn s)
    unfolding note
    note-IsSound idle hm hc = record {
      agrees = note-ConnAgrees;
      keys = λ g k booked. elim (Bool-cases (pair_key modid cmdid == k)) [
        | inl same ↦
            let e : pair_key modid cmdid ≡ k = ground arith in
            rw (sym e) (
              rw
                (
                  key_hi-pair_key modid cmdid (omega arith) hc,
                  key_lo-pair_key modid cmdid (omega arith) (omega arith),
                )
                refl)
        | inr other ↦ h.keys g k (ground (arith, is_booked-note k g))
      ];
      knows = λ g k. note-Knows g k idle;
      answers = λ g. elim (Bool-cases (conn.fd == g)) [
        | inl here ↦ rw here (ground (arith, is_booked-note (pair_key modid cmdid) g))
        | inr other ↦ rw other (note-Answers g (s.handling g) (h.answers g))
      ];
    }
