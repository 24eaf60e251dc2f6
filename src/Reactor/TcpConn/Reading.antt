-- ===== src/Reactor/TcpConn/Reading.antt =====
-- What the router is called with when bytes arrive.
use lars.Base.{
  ℕ, zero, suc, ◌+◌, ◌≤◌, ◌<◌, ◌≡◌, refl, sym, ap, ◌∙◌, true, false, List, [], ◌∷◌, ◌++◌, Option,
  none, some, inl, inr, ltb, leb, length, take, drop, is_empty, Result, ok, ◌>>=◌, arith,
  Bool-cases, Option-cases, append_assoc, length-append, length-drop,
}
use lars.Reactor.BufPool.{IoBuf, BufPool, io_pop}
use lars.Reactor.BufPool.Classes.{IsPool, revert-IsPool}
use lars.Reactor.ReactorBuf.{ReactorBuf, contents, clear, pop, adjust}
use lars.Reactor.ReactorBuf.Append.{IsBuf, HasBuf, IsReady}
use lars.Reactor.TcpConn.{
  Message, TcpConn, head_bytes, read_head, bad_length, process, dispatch, input_of, with_input,
}
use lars.Reactor.TcpConn.Framing.{
  encode, encode_all, IsMessage, AllMessages, is_partial, read_head-head_bytes, take-append,
  drop-append, drop-head_bytes, length-head_bytes,
}

-- The state while `do_read` runs: the buffer starts anywhere.
abbrev pub IsHeld : ReactorBuf → Type 0
IsHeld s = IsPool s.pool × HasBuf IsBuf s.buf

-- `pop` of bytes that are there leaves the others, and the state in order.
abbrev Popped : ℕ → ReactorBuf → Result ReactorBuf → Type 0
Popped n s r = (s' : ReactorBuf) × (r ≡ ok s') × IsHeld s' × (contents s' ≡ drop n (contents s))

clear-IsHeld :
    (b : IoBuf) (p : BufPool)
    → IsPool p
    → IsBuf b
    → (s : ReactorBuf) × (clear (record { buf = some b; pool = p }) ≡ ok s)
      × IsHeld s
      × (contents s ≡ [])
unfolding clear
clear-IsHeld b p v i =
    let (p', back, v', counts) = revert-IsPool b p v i.0 in
    (record { buf = none; pool = p' }, rw back refl, (v', tt), refl)

empty_of : (xs : List ℕ) → is_empty xs ≡ true → xs ≡ []
empty_of [] e = refl
empty_of (x ∷ xs) e = ground arith

pop-some :
    (n : ℕ) (b : IoBuf) (p : BufPool)
    → IsPool p
    → IsBuf b
    → n ≤ length b.bytes
    → Popped n (record { buf = some b; pool = p }) (pop n (record { buf = some b; pool = p }))
unfolding pop io_pop
pop-some n b p v i fits =
    let room : leb n (length b.bytes) ≡ true = ground arith in
    let held : IsBuf (io_pop n b) = (i.0, ground (arith, i.1, length-drop n b.bytes)) in
    elim (Bool-cases (is_empty (drop n b.bytes))) [
      | inl done ↦
          let (s, ran, h, z) = clear-IsHeld (io_pop n b) p v held in
          (s, rw room (rw done ran), h, z ∙ sym (empty_of (drop n b.bytes) done))
      | inr more ↦
          (record { buf = some (io_pop n b); pool = p }, rw room (rw more refl), (v, held), refl)
    ]

pop_any :
    (o : Option IoBuf) (p : BufPool) (n : ℕ)
    → IsHeld (record { buf = o; pool = p })
    → 0 < length (contents (record { buf = o; pool = p }))
    → n ≤ length (contents (record { buf = o; pool = p }))
    → Popped n (record { buf = o; pool = p }) (pop n (record { buf = o; pool = p }))
pop_any none p n v some_bytes fits = ground arith
pop_any (some b) p n v some_bytes fits = pop-some n b p v.0 v.1 fits

pop-Popped :
    (n : ℕ) (s : ReactorBuf)
    → IsHeld s
    → 0 < length (contents s)
    → n ≤ length (contents s)
    → Popped n s (pop n s)
pop-Popped n s v some_bytes fits = pop_any s.buf s.pool n v some_bytes fits

pub turn :
    (fuel i n : ℕ) (s s1 s2 : ReactorBuf)
    → read_head (contents s) ≡ some (i, n)
    → bad_length n ≡ false
    → ltb (length (contents s)) (8 + n) ≡ false
    → pop 8 s ≡ ok s1
    → pop n s1 ≡ ok s2
    → process (suc fuel) s ≡ (
        process fuel s2 >>= λ o.
        ok (record { msgid = i; body = take n (contents s1) } ∷ o.0, o.1, o.2))
unfolding process
turn fuel i n s s1 s2 head good enough ran1 ran2 =
    rw (head, process)
      (rw (good, process) (rw (enough, process) (rw (ran1, process) (rw (ran2, process) refl))))

-- One turn of the loop, on a message and any bytes behind it.
process_turn :
    (fuel : ℕ) (m : Message) (rest : List ℕ) (s : ReactorBuf)
    → IsHeld s
    → IsMessage m
    → contents s ≡ encode m ++ rest
    → (s' : ReactorBuf) × IsHeld s'
      × (contents s' ≡ rest)
      × (process (suc fuel) s ≡ (process fuel s' >>= λ o. ok (m ∷ o.0, o.1, o.2)))
process_turn fuel m rest s v i e =
    let shape : contents s ≡ head_bytes m.msgid (length m.body) ++ (m.body ++ rest) =
      e ∙ append_assoc _ m.body rest in
    let size : length (contents s) ≡ 8 + length (m.body ++ rest) =
      ap length shape ∙ length-head_bytes m.msgid (length m.body) (m.body ++ rest) in
    let head : read_head (contents s) ≡ some (m.msgid, length m.body) =
      ap read_head shape
      ∙ read_head-head_bytes m.msgid (length m.body) (m.body ++ rest) i.0 (ground arith) in
    let good : bad_length (length m.body) ≡ false = ground arith in
    let enough : ltb (length (contents s)) (8 + length m.body) ≡ false =
      ground (arith, size, length-append m.body rest) in
    let (s1, ran1, v1, c1) = pop-Popped 8 s v (ground arith) (ground arith) in
    let body : contents s1 ≡ m.body ++ rest =
      c1 ∙ ap (drop 8) shape ∙ drop-head_bytes m.msgid (length m.body) (m.body ++ rest) in
    let (s2, ran2, v2, c2) =
      pop-Popped (length m.body) s1 v1 (ground (arith, ap length body, length-append m.body rest))
        (ground (arith, ap length body, length-append m.body rest)) in
    (
      s2,
      v2,
      c2 ∙ ap (drop (length m.body)) body ∙ drop-append m.body rest,
      turn fuel m.msgid (length m.body) s s1 s2 head good enough ran1 ran2
          ∙ ap
              (λ bs.
                process fuel s2 >>= λ o. ok (record { msgid = m.msgid; body = bs } ∷ o.0, o.1, o.2))
              (ap (take (length m.body)) body ∙ take-append m.body rest),
    )

-- The whole loop: on messages and less than one behind them, with fuel for every message.
pub process_lem :
    (fuel : ℕ) (ms : List Message) (rest : List ℕ) (s : ReactorBuf)
    → IsHeld s
    → AllMessages ms
    → contents s ≡ encode_all ms ++ rest
    → is_partial rest ≡ true
    → length ms < fuel
    → (s' : ReactorBuf) × (process fuel s ≡ ok (ms, false, s')) × IsHeld s' × (contents s' ≡ rest)
unfolding process
process_lem zero ms rest s v all e part f = ground arith
process_lem (suc fuel) [] rest s v all e part f = elim (Option-cases (read_head rest)) [
  | inl short ↦
      let none_left : read_head (contents s) ≡ none = ap read_head e ∙ short in
      (s, rw (none_left, process) refl, v, e)
  | inr (h, head) ↦
      let there : read_head (contents s) ≡ some h = ap read_head e ∙ head in
      let good : bad_length h.1 ≡ false = ground (arith, head) in
      let lacks : ltb (length (contents s)) (8 + h.1) ≡ true = ground (arith, head, ap length e) in
      (s, rw (there, process) (rw (good, process) (rw (lacks, process) refl)), v, e)
]
process_lem (suc fuel) (m ∷ ms) rest s v all e part f =
    let (s1, v1, c1, turn) =
      process_turn fuel m (encode_all ms ++ rest) s v all.0
        (e ∙ append_assoc (encode m) (encode_all ms) rest) in
    let (s2, ran, v2, c2) = process_lem fuel ms rest s1 v1 all.1 c1 part (ground arith) in
    (s2, turn ∙ rw ran refl, v2, c2)

adjust-IsReady :
    (o : Option IoBuf) (p : BufPool)
    → IsHeld (record { buf = o; pool = p })
    → IsReady (adjust (record { buf = o; pool = p }))
      × (contents (adjust (record { buf = o; pool = p })) ≡ contents (record { buf = o; pool = p }))
unfolding adjust
adjust-IsReady none p v = (v, refl)
adjust-IsReady (some b) p v = ((v.0, ((v.1.0, ground arith), refl)), refl)

IsHeld-of_IsReady :
    (o : Option IoBuf) (p : BufPool)
    → IsReady (record { buf = o; pool = p })
    → IsHeld (record { buf = o; pool = p })
IsHeld-of_IsReady none p v = v
IsHeld-of_IsReady (some b) p v = (v.0, v.1.0)

length-encode_all : (ms : List Message) (rest : List ℕ) → length ms ≤ length (encode_all ms ++ rest)
length-encode_all [] rest = ground arith
length-encode_all (m ∷ ms) rest = ground (
  arith,
  length-encode_all ms rest,
  length-append (encode m ++ encode_all ms) rest,
  length-append (encode m) (encode_all ms),
  length-append (encode_all ms) rest,
  length-head_bytes m.msgid (length m.body) m.body,
)

-- `dispatch` of an open connection whose waiting bytes are messages and less than one more: the router
-- is called with exactly those messages, in order, and the rest waits.
pub dispatch_lem :
    (ms : List Message) (rest : List ℕ) (c : TcpConn)
    → IsReady (input_of c)
    → AllMessages ms
    → contents (input_of c) ≡ encode_all ms ++ rest
    → is_partial rest ≡ true
    → (s : ReactorBuf) × (dispatch c ≡ ok (ms, with_input s c)) × IsReady s × (contents s ≡ rest)
unfolding dispatch
dispatch_lem ms rest c v all e part =
    let (s, ran, held, left) =
      process_lem (suc (length (contents (input_of c)))) ms rest (input_of c)
        (IsHeld-of_IsReady c.ibuf c.pool v) all e part
        (ground (arith, ap length e, length-encode_all ms rest)) in
    let (ready, same) = adjust-IsReady s.buf s.pool held in
    (adjust s, rw ran refl, ready, same ∙ left)
