-- ===== src/Reactor/Channel.antt =====
-- A channel between two tcp_conns (lars_reactor/src/tcp_conn.cpp): one sends messages and writes when
-- its loop tells it to, the network cuts the bytes as it likes, and the other reads. tcp_client.cpp
-- has the same loops.
use lars.Base.{
  ℕ, suc, ◌+◌, ◌-◌, ◌≤◌, ◌≡◌, refl, sym, ap, ◌∙◌, false, ◌||◌, List, [], ◌∷◌, ◌++◌, ◌⊎◌, inl, inr,
  if◌then◌else◌, length, take, drop, is_empty, Result, ok, fault, exits, ◌>>=◌, arith, append_assoc,
  append-nil, length-append, length-drop, take-append-drop,
}
use lars.Reactor.ReactorBuf.{ReactorBuf, Written, contents}
use lars.Reactor.ReactorBuf.Append.{IsReady}
use lars.Reactor.TcpConn.{
  Message, TcpConn, send_message, do_write, output_of, input_of, with_input, with_output,
}
use lars.Reactor.TcpConn.Framing.{encode, encode_all, AllMessages, length-head_bytes}
use lars.Reactor.TcpConn.Sending.{send_message_lem}
use lars.Reactor.TcpConn.Writing.{do_write_lem}
use lars.Reactor.TcpConn.Segments.{feed, joined, NoneEmpty, refl_partial, feed_lem}
use lars.Reactor.TcpClient.Draining.{taken, Fits}

-- What the sending side does: `send_message`, and `do_write` with what `write` answers.
pub data Action : Type 0 where
  sends : Message → Action
  writes : List Written → Action

-- The bytes that a `do_write` hands to the socket.
abbrev pub handed : List Written → List ℕ → List ℕ
handed ws bytes = take (taken ws (length bytes)).0 bytes

-- The sending side, with the bytes that go out.
unfoldable pub run : List Action → TcpConn → Result (List ℕ × TcpConn)
run [] c = ok ([], c)
run (sends m ∷ acts) c = send_message m.body m.msgid c >>= λ o. run acts o.1
run (writes ws ∷ acts) c =
    do_write ws c >>= λ c'. run acts c' >>= λ o. ok (handed ws (contents (output_of c)) ++ o.0, o.1)

abbrev pub messages : List Action → List Message
messages [] = []
messages (sends m ∷ acts) = m ∷ messages acts
messages (writes ws ∷ acts) = messages acts

-- `write` takes no more than waits and does not fail, and in the end nothing waits. The number is that
-- of the bytes that wait.
abbrev pub Delivers : List Action → ℕ → Type 0
Delivers [] n = n ≡ 0
Delivers (sends m ∷ acts) n = Delivers acts (n + (8 + length m.body))
Delivers (writes ws ∷ acts) n =
    Fits ws n × ((taken ws n).1 ≡ false) × Delivers acts (n - (taken ws n).0)

-- The network: segments of the sizes that it chooses, none of them empty.
unfoldable pub segments : List ℕ → List ℕ → List (List ℕ)
segments [] bytes = if is_empty bytes then [] else bytes ∷ []
segments (n ∷ ns) bytes =
    let rest = segments ns (drop (suc n) bytes) in
    if is_empty bytes then [] else take (suc n) bytes ∷ rest

-- Both sides.
unfoldable pub transmit : List Action → List ℕ → TcpConn → TcpConn → Result (List Message × TcpConn)
unfolding run segments
transmit acts sizes c r = run acts c >>= λ o. feed (segments sizes o.0) r

length_zero : (xs : List ℕ) → length xs ≡ 0 → xs ≡ []
length_zero [] e = refl
length_zero (x ∷ xs) e = ground arith

-- Every byte of every message goes out, in order.
run_lem :
    (acts : List Action) (c : TcpConn)
    → IsReady (output_of c)
    → Delivers acts (length (contents (output_of c)))
    → length (contents (output_of c)) + length (encode_all (messages acts)) ≤ 8388608
    → ((c' : TcpConn) × (run acts c
          ≡ ok (contents (output_of c) ++ encode_all (messages acts), c')))
      ⊎ (run acts c ≡ fault exits)
unfolding run
run_lem [] c v d fits =
    inl
      (c, ap (λ bs. ok (bs, c)) (sym (length_zero (contents (output_of c)) d) ∙ sym (append-nil _)))
run_lem (sends m ∷ acts) c v d fits =
    let waiting = contents (output_of c) in
    let more = encode_all (messages acts) in
    let size : length (encode m) ≡ 8 + length m.body =
      length-head_bytes m.msgid (length m.body) m.body in
    let sum : length (encode m ++ more) ≡ length (encode m) + length more =
      length-append (encode m) more in
    elim (send_message_lem m c v (omega (arith, size, sum, fits))) [
      | inr stops ↦ inr (rw stops refl)
      | inl (s, sent, v', holds) ↦
          let c1 = with_output s (record c { wants_write = is_empty waiting || c.wants_write }) in
          let size' : length (contents s) ≡ length waiting + (8 + length m.body) =
            ap length holds
            ∙ length-append waiting (encode m)
            ∙ ap (λ n. length waiting + n) size in
          elim (run_lem acts c1 v' (rw size' d) (omega (arith, size', size, sum, fits))) [
            | inr stops ↦ inr (rw sent stops)
            | inl (c', ran) ↦ inl (
              c',
              rw sent (
                  ran
                  ∙ ap (λ bs. ok (bs ++ more, c')) holds
                  ∙ ap (λ bs. ok (bs, c')) (append_assoc waiting (encode m) more)),
            )
          ]
    ]
run_lem (writes ws ∷ acts) c v d fits =
    let waiting = contents (output_of c) in
    let k = (taken ws (length waiting)).0 in
    let more = encode_all (messages acts) in
    let (c1, wrote, v', left, flag) = do_write_lem ws c v d.0 d.1 in
    let size : length (contents (output_of c1)) ≡ length waiting - k =
      ap length left ∙ length-drop k waiting in
    elim (run_lem acts c1 v' (rw size d.2) (omega (arith, size, fits))) [
      | inr stops ↦ inr (rw wrote (rw stops refl))
      | inl (c', ran) ↦ inl (
        c',
        rw wrote (
            rw ran (
              ap (λ bs. ok (take k waiting ++ (bs ++ more), c')) left
              ∙ ap (λ bs. ok (bs, c')) (sym (append_assoc (take k waiting) (drop k waiting) more))
              ∙ ap (λ bs. ok (bs ++ more, c')) (take-append-drop k waiting))),
      )
    ]

joined-segments : (sizes bytes : List ℕ) → joined (segments sizes bytes) ≡ bytes
unfolding segments
joined-segments [] [] = refl
joined-segments [] (b ∷ bs) = append-nil (b ∷ bs)
joined-segments (n ∷ ns) [] = refl
joined-segments (n ∷ ns) (b ∷ bs) =
    ap (λ rest. b ∷ (take n bs ++ rest)) (joined-segments ns (drop n bs))
    ∙ ap (λ xs. b ∷ xs) (take-append-drop n bs)

segments-NoneEmpty : (sizes bytes : List ℕ) → NoneEmpty (segments sizes bytes)
unfolding segments
segments-NoneEmpty [] [] = tt
segments-NoneEmpty [] (b ∷ bs) = (refl, tt)
segments-NoneEmpty (n ∷ ns) [] = tt
segments-NoneEmpty (n ∷ ns) (b ∷ bs) = (refl, segments-NoneEmpty ns (drop n bs))

-- Two connections in order where nothing waits. The one sends messages, each with a body of 1 to 65527
-- bytes and an id of 32 bits, and writes now and then; `write` takes what it likes of what waits but does
-- not fail, and in the end nothing waits. All in all the bytes are no more than the largest buffer holds.
-- However the bytes are cut on the way, the other's router is called for exactly these messages, each
-- once and in order, and nothing waits there; or one of the two processes exits as its pool's limit is
-- reached.
pub transmit_lem :
    (acts : List Action) (sizes : List ℕ) (c r : TcpConn)
    → IsReady (output_of c)
    → contents (output_of c) ≡ []
    → IsReady (input_of r)
    → contents (input_of r) ≡ []
    → AllMessages (messages acts)
    → Delivers acts 0
    → length (encode_all (messages acts)) ≤ 8388608
    → ((s : ReactorBuf) × (transmit acts sizes c r ≡ ok (messages acts, with_input s r))
        × IsReady s
        × (contents s ≡ []))
      ⊎ (transmit acts sizes c r ≡ fault exits)
unfolding transmit
transmit_lem acts sizes c r v empty_out v' empty_in all d fits =
    elim (run_lem acts c v (rw empty_out d) (rw empty_out (omega (arith, fits)))) [
      | inr stops ↦ inr (rw stops refl)
      | inl (c', ran) ↦
          let bytes = encode_all (messages acts) in
          let ran' : run acts c ≡ ok (bytes, c') = rw empty_out at ran in
          rw ran' (
            feed_lem (segments sizes bytes) (messages acts) r v' all
              (segments-NoneEmpty sizes bytes) (rw empty_in refl_partial)
              (rw empty_in (joined-segments sizes bytes)) fits)
    ]
