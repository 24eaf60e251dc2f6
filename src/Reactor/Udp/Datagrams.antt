-- ===== src/Reactor/Udp/Datagrams.antt =====
-- Which datagrams are delivered.
use lars.Base.{
  ℕ, zero, suc, ◌+◌, ◌≤◌, ◌<◌, ◌^◌, ◌≡◌, refl, ap, not, ◌||◌, List, [], ◌∷◌, ◌++◌, Option, none,
  some, if◌then◌else◌, ltb, ◌==◌, length, take, drop, ok, fault, out_of_bounds, arith, Bool-cases,
  Option-cases, inl, inr,
}
use lars.Reactor.ReactorBuf.{minus_one, ret}
use lars.Reactor.TcpConn.{head_bytes, read_head, bad_length, message_length_limit}
use lars.Reactor.TcpConn.Framing.{
  take-append, drop-head_bytes, length-head_bytes, read_head-head_bytes,
}
use lars.Reactor.MsgRouter.{MsgRouter, Handled, call}
use lars.Reactor.Udp.{
  UdpServer, Received, interrupted, again, broken, datagram, Delivered, dispatch, deliver, do_read,
  send_message,
}

-- The message that a datagram is, if it is one: a head, and a body of the length that it names.
abbrev pub frame : List ℕ → Option (ℕ × List ℕ)
frame bytes = elim (read_head bytes) [
  | none ↦ none
  | some head ↦
      if bad_length head.1 || not (head.1 + 8 == length bytes)
      then none
      else some (head.0, drop 8 bytes)
]

read_head-append : (got x : List ℕ) → 8 ≤ length got → read_head (got ++ x) ≡ read_head got
unfolding read_head
read_head-append [] x l = ground arith
read_head-append (a ∷ []) x l = ground arith
read_head-append (a ∷ b ∷ []) x l = ground arith
read_head-append (a ∷ b ∷ c ∷ []) x l = ground arith
read_head-append (a ∷ b ∷ c ∷ d ∷ []) x l = ground arith
read_head-append (a ∷ b ∷ c ∷ d ∷ e ∷ []) x l = ground arith
read_head-append (a ∷ b ∷ c ∷ d ∷ e ∷ f ∷ []) x l = ground arith
read_head-append (a ∷ b ∷ c ∷ d ∷ e ∷ f ∷ g ∷ []) x l = ground arith
read_head-append (a ∷ b ∷ c ∷ d ∷ e ∷ f ∷ g ∷ h ∷ rest) x l = refl

-- The bytes of the body, in a buffer that has more behind them.
take-body : (n : ℕ) (got x : List ℕ) → n + 8 ≡ length got → take n (drop 8 (got ++ x)) ≡ drop 8 got
take-body n (a ∷ b ∷ c ∷ d ∷ e ∷ f ∷ g ∷ h ∷ rest) x l =
    let size : n ≡ length rest = ground arith in rw size (take-append rest x)
take-body n [] x l = ground arith
take-body n (a ∷ []) x l = ground arith
take-body n (a ∷ b ∷ []) x l = ground arith
take-body n (a ∷ b ∷ c ∷ []) x l = ground arith
take-body n (a ∷ b ∷ c ∷ d ∷ []) x l = ground arith
take-body n (a ∷ b ∷ c ∷ d ∷ e ∷ []) x l = ground arith
take-body n (a ∷ b ∷ c ∷ d ∷ e ∷ f ∷ []) x l = ground arith
take-body n (a ∷ b ∷ c ∷ d ∷ e ∷ f ∷ g ∷ []) x l = ground arith

frame-short : (got : List ℕ) → length got < 8 → frame got ≡ none
frame-short got l = elim (Option-cases (read_head got)) [
  | inl no_head ↦ rw (no_head, frame)
  | inr (head, e) ↦ rw (e, frame) (ground arith)
]

module _ {C A : Type 0} where
  abbrev pub call_frame : MsgRouter C A → Option (ℕ × List ℕ) → Option (Handled C A)
  call_frame r none = none
  call_frame r (some m) = call m.0 m.1 r

  -- The calls, by the datagrams alone.
  abbrev pub delivered : MsgRouter C A → List Received → List (Delivered C A)
  delivered r [] = []
  delivered r (interrupted ∷ rs) = delivered r rs
  delivered r (again ∷ rs) = []
  delivered r (broken ∷ rs) = []
  delivered r (datagram from bytes ∷ rs) =
      deliver from (call_frame r (frame (take message_length_limit bytes))) ++ delivered r rs

  dispatch-frame :
      (got x : List ℕ) (from : ℕ) (r : MsgRouter C A)
      → dispatch (length got) (record { read_buf = got ++ x; client_addr = from; router = r })
        ≡ call_frame r (frame got)
  unfolding dispatch
  dispatch-frame got x from r = elim (Bool-cases (ltb (length got) 8)) [
    | inl short ↦ elim (Option-cases (read_head (got ++ x))) [
      | inl no_head ↦ rw (no_head, dispatch) (rw (frame-short got (ground arith)))
      | inr (head, e) ↦ rw (e, dispatch) (rw (frame-short got (ground arith)) (ground arith))
    ]
    | inr long ↦
        rw (read_head-append got x (ground arith), dispatch)
          (elim (Option-cases (read_head got)) [
            | inl no_head ↦ rw (no_head, frame)
            | inr (head, e) ↦ rw (e, frame) (ground (arith, take-body head.1 got x))
          ])
  ]

  -- The calls that `do_read` makes are one for each datagram, up to the first EAGAIN or error, that is
  -- a head and exactly the body that it announces, for a registered id. What earlier datagrams left
  -- in the buffer plays no part, and the answers of a callback go to the sender of its datagram.
  pub do_read-delivered :
      (rs : List Received) (u : UdpServer C A) → (do_read rs u).0 ≡ delivered u.router rs
  unfolding do_read
  do_read-delivered [] u = refl
  do_read-delivered (interrupted ∷ rs) u = do_read-delivered rs u
  do_read-delivered (again ∷ rs) u = refl
  do_read-delivered (broken ∷ rs) u = refl
  do_read-delivered (datagram from bytes ∷ rs) u =
      let got = take message_length_limit bytes in
      let x = drop (length got) u.read_buf in
      rw
        (
          dispatch-frame got x from u.router,
          do_read-delivered rs (record u { read_buf = got ++ x; client_addr = from }),
        )
        refl

take-all : (n : ℕ) (xs : List ℕ) → length xs ≤ n → take n xs ≡ xs
take-all zero [] l = refl
take-all zero (x ∷ xs) l = ground arith
take-all (suc n) [] l = refl
take-all (suc n) (x ∷ xs) l = ap (◌∷◌ x) (take-all n xs (omega arith))

frame-head_bytes :
    (msgid : ℕ) (body : List ℕ)
    → msgid < 2 ^ 32
    → length body ≤ 65519
    → frame (head_bytes msgid (length body) ++ body) ≡ some (msgid, body)
frame-head_bytes msgid body i l =
    rw (read_head-head_bytes msgid (length body) body i (omega arith), frame)
      (ground (
        arith,
        length-head_bytes msgid (length body) body,
        drop-head_bytes msgid (length body) body,
      ))

-- `send_message`, by the length of the body: more than 65527 bytes are refused; from 65520 to 65527
-- bytes the copy goes past the end of `_write_buf`; else an error of `sendto` is passed on, and a
-- datagram that is sent is read by a receiver as the id and the body.
pub send_message-frame :
    (sent : Option ℕ) (n msgid : ℕ) (body : List ℕ)
    → msgid < 2 ^ 32
    → (65527 < length body → send_message sent body msgid ≡ ok (minus_one, []))
      × (65519 < length body
          → length body ≤ 65527
          → send_message sent body msgid ≡ fault out_of_bounds)
      × (length body ≤ 65519 → send_message none body msgid ≡ ok (minus_one, []))
      × (length body ≤ 65519
          → (bytes : List ℕ) × (send_message (some n) body msgid ≡ ok (ret n, bytes))
            × (frame (take 65527 bytes) ≡ some (msgid, body)))
unfolding send_message
send_message-frame sent n msgid body i = (
  λ big. ground arith,
  λ over fits. ground arith,
  λ fits. ground arith,
  λ fits. (
    head_bytes msgid (length body) ++ body,
    ground arith,
    rw
        (take-all 65527 (head_bytes msgid (length body) ++ body)
          (omega (arith, length-head_bytes msgid (length body) body)))
        (frame-head_bytes msgid body i fits),
  ),
)
