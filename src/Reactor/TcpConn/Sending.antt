-- ===== src/Reactor/TcpConn/Sending.antt =====
-- `send_message` and `do_write`.
use lars.Base.{
  ℕ, zero, suc, ◌+◌, ◌≤◌, ◌<◌, ◌≡◌, refl, ap, ◌∙◌, true, false, ◌||◌, List, [], ◌∷◌, ◌++◌, Option,
  none, some, ◌⊎◌, inl, inr, length, drop, leb, ◌==◌, is_empty, Result, ok, fault, exits, assertion,
  arith, append_assoc, length-append,
}
use lars.Reactor.BufPool.{IoBuf, BufPool, io_pop}
use lars.Reactor.ReactorBuf.{
  ReactorBuf, contents, ret, minus_one, pop, Written, write2fd, send_data,
}
use lars.Reactor.ReactorBuf.Append.{IsReady, send_data-Appended}
use lars.Reactor.TcpConn.{Message, TcpConn, head_bytes, send_message, output_of, with_output}
use lars.Reactor.TcpConn.Framing.{encode, length-head_bytes}

-- The two appends of a message that fits: both are done, or one of them reaches the pool's limit.
pub send_data-encode :
    (m : Message) (s : ReactorBuf)
    → IsReady s
    → length (contents s) + 8 + length m.body ≤ 8388608
    → ((s1 : ReactorBuf) × (s2 : ReactorBuf) × (send_data (head_bytes m.msgid (length m.body)) s
          ≡ ok (ret 0, s1))
        × (send_data m.body s1 ≡ ok (ret 0, s2))
        × IsReady s2
        × (contents s2 ≡ contents s ++ encode m))
      ⊎ ((send_data (head_bytes m.msgid (length m.body)) s ≡ fault exits)
          ⊎ ((s1 : ReactorBuf) × (send_data (head_bytes m.msgid (length m.body)) s ≡ ok (ret 0, s1))
              × (send_data m.body s1 ≡ fault exits)))
unfolding head_bytes
send_data-encode m s v fits = elim (send_data-Appended (head_bytes m.msgid (length m.body)) s v) [
  | inr (inl (stuck, big)) ↦
      let eight = length-head_bytes m.msgid (length m.body) [] in ground arith
  | inr (inr stops) ↦ inr (inl stops)
  | inl (s1, ran, v', holds) ↦ elim (send_data-Appended m.body s1 v') [
    | inr (inl (stuck, big)) ↦
        let size : length (contents s1) ≡ length (contents s) + 8 =
          ap length holds ∙ length-append (contents s) (head_bytes m.msgid (length m.body)) in
        ground arith
    | inr (inr stops) ↦ inr (inr (s1, ran, stops))
    | inl (s2, ran', v'', holds') ↦ inl (
      s1,
      s2,
      ran,
      ran',
      v'',
      holds'
          ∙ ap (λ bs. bs ++ m.body) holds
          ∙ append_assoc _ (head_bytes m.msgid (length m.body)) m.body,
    )
  ]
]

-- `send_message` on a connection in order, with no more bytes than the largest buffer holds: the message's
-- bytes are behind those that wait, the connection is in order, EPOLLOUT is on if nothing waited, and
-- the call returns 0; or the pool's limit is reached and the process exits.
pub send_message_lem :
    (m : Message) (c : TcpConn)
    → IsReady (output_of c)
    → length (contents (output_of c)) + 8 + length m.body ≤ 8388608
    → ((s : ReactorBuf) × (send_message m.body m.msgid c
          ≡ ok (
            ret 0,
            with_output s
                (record c { wants_write = is_empty (contents (output_of c)) || c.wants_write }),
          ))
        × IsReady s
        × (contents s ≡ contents (output_of c) ++ encode m))
      ⊎ (send_message m.body m.msgid c ≡ fault exits)
unfolding send_message
send_message_lem m c v fits = elim (send_data-encode m (output_of c) v fits) [
  | inr (inl stops) ↦ inr (rw stops refl)
  | inr (inr (s1, ran, stops)) ↦ inr (rw ran (rw stops refl))
  | inl (s1, s2, ran, ran', v', holds) ↦ inl (s2, rw ran (rw ran' refl), v', holds)
]

drop-is_empty : (n : ℕ) (xs : List ℕ) → n < length xs → is_empty (drop n xs) ≡ false
drop-is_empty n [] l = ground arith
drop-is_empty zero (x ∷ xs) l = refl
drop-is_empty (suc n) (x ∷ xs) l = drop-is_empty n xs (ground arith)

-- What `pop` leaves where more bytes wait: the buffer no longer starts at its front, and `write2fd`
-- fails its assertion.
abbrev Stuck : ReactorBuf → Result ReactorBuf → Type 0
Stuck s r =
    (s' : ReactorBuf) × (r ≡ ok s')
    × (contents s' ≡ drop 8 (contents s))
    × ((w : Written) → write2fd w s' ≡ fault assertion)

pop-Stuck :
    (o : Option IoBuf) (p : BufPool)
    → IsReady (record { buf = o; pool = p })
    → 8 < length (contents (record { buf = o; pool = p }))
    → Stuck (record { buf = o; pool = p }) (pop 8 (record { buf = o; pool = p }))
unfolding pop io_pop write2fd
pop-Stuck none p v more = ground arith
pop-Stuck (some b) p v more =
    let room : leb 8 (length b.bytes) ≡ true = ground arith in
    let left : is_empty (drop 8 b.bytes) ≡ false = drop-is_empty 8 b.bytes more in
    let moved : (b.head + 8 == 0) ≡ false = ground arith in
    (record { buf = some (io_pop 8 b); pool = p }, rw room (rw left refl), refl, λ w. rw moved refl)

length-contents :
    (o : Option IoBuf) (p : BufPool)
    → IsReady (record { buf = o; pool = p })
    → length (contents (record { buf = o; pool = p })) ≤ 8388608
length-contents none p v = ground arith
length-contents (some b) p v = ground arith

length-is_empty : (xs : List ℕ) → is_empty xs ≡ false → 0 < length xs
length-is_empty [] e = ground arith
length-is_empty (x ∷ xs) e = ground arith

-- `send_message` on a connection in order where bytes wait and the body does not fit behind them,
-- while the head does: it returns -1 with the first eight of the waiting bytes lost and the head still
-- at the end, and the next `write2fd` fails its assertion; or the pool's limit is reached and the
-- process exits.
pub send_message_full :
    (m : Message) (c : TcpConn)
    → IsReady (output_of c)
    → is_empty (contents (output_of c)) ≡ false
    → length (contents (output_of c)) + 8 ≤ 8388608
    → 8388608 < length (contents (output_of c)) + 8 + length m.body
    → ((s : ReactorBuf) × (send_message m.body m.msgid c ≡ ok (minus_one, with_output s c))
        × (contents s ≡ drop 8 (contents (output_of c) ++ head_bytes m.msgid (length m.body)))
        × ((w : Written) → write2fd w s ≡ fault assertion))
      ⊎ (send_message m.body m.msgid c ≡ fault exits)
unfolding send_message
send_message_full m c v waits fits big =
    elim (send_data-Appended (head_bytes m.msgid (length m.body)) (output_of c) v) [
      | inr (inl (stuck, over)) ↦
          let eight = length-head_bytes m.msgid (length m.body) [] in ground arith
      | inr (inr stops) ↦ inr (rw stops refl)
      | inl (s, ran, v', holds) ↦
          let size : length (contents s) ≡ length (contents (output_of c)) + 8 =
            ap length holds
            ∙ length-append (contents (output_of c)) (head_bytes m.msgid (length m.body)) in
          elim (send_data-Appended m.body s v') [
            | inr (inr stops) ↦ inr (rw ran (rw stops refl))
            | inr (inl (stuck, over)) ↦
                let (s', popped, left, fails) =
                  pop-Stuck s.buf s.pool v'
                    (ground (arith, size, length-is_empty (contents (output_of c)) waits)) in
                inl (s', rw ran (rw stuck (rw popped refl)), left ∙ ap (drop 8) holds, fails)
            | inl (s', ran', v'', holds') ↦
                let bound = length-contents s'.buf s'.pool v'' in
                let total : length (contents s') ≡ length (contents s) + length m.body =
                  ap length holds' ∙ length-append (contents s) m.body in
                ground arith
          ]
    ]
