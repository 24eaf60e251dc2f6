-- ===== src/Reactor/TcpConn/Receiving.antt =====
-- `do_read` as a whole.
use lars.Base.{
  ℕ, suc, ◌+◌, ◌^◌, ◌<◌, ◌≡◌, refl, sym, ap, ◌∙◌, true, false, List, [], ◌∷◌, ◌++◌, Option, none,
  some, ◌⊎◌, inl, inr, ltb, leb, ◌==◌, length, drop, is_empty, ok, fault, exits, assertion, arith,
  length-drop, append-nil,
}
use lars.Reactor.BufPool.{IoBuf, BufPool, io_pop}
use lars.Reactor.BufPool.Classes.{IsPool, revert-IsPool}
use lars.Reactor.ReactorBuf.{ReactorBuf, contents, pop, clear}
use lars.Reactor.ReactorBuf.Append.{IsBuf, IsReady, read_data-Appended}
use lars.Reactor.TcpConn.{
  Message, TcpConn, head_bytes, int_bytes, read_head, process, dispatch, do_read, input_of,
  with_input,
}
use lars.Reactor.TcpConn.Framing.{encode_all, AllMessages, is_partial, read_head-head_bytes}
use lars.Reactor.TcpConn.Reading.{dispatch_lem}

is_empty-length : (xs : List ℕ) → is_empty xs ≡ false → (length xs == 0) ≡ false
is_empty-length [] e = ground arith
is_empty-length (x ∷ xs) e = ground arith

-- Some bytes arrive, all that `ioctl` announced, on a connection in order, and with those that waited
-- they are messages and less than one more. The router is called with exactly those messages, in
-- order, the rest waits and the connection is in order; or there is no buffer for so many bytes, or
-- the pool's limit is reached and the process exits.
pub do_read_lem :
    (ms : List Message) (rest new : List ℕ) (c : TcpConn)
    → IsReady (input_of c)
    → AllMessages ms
    → is_empty new ≡ false
    → contents (input_of c) ++ new ≡ encode_all ms ++ rest
    → is_partial rest ≡ true
    → ((s : ReactorBuf) × (do_read (some (length new)) (some new) c ≡ ok (ms, with_input s c))
        × IsReady s
        × (contents s ≡ rest))
      ⊎ ((8388608 < length new + length (contents (input_of c)))
          ⊎ (do_read (some (length new)) (some new) c ≡ fault exits))
unfolding do_read
do_read_lem ms rest new c v all some_bytes e part =
    elim (read_data-Appended new (input_of c) v some_bytes) [
      | inr (inl (stuck, big)) ↦ inr (inl big)
      | inr (inr stops) ↦ inr (inr (rw stops refl))
      | inl (s, ran, v', holds) ↦
          let (s', went, v'', left) =
            dispatch_lem ms rest (with_input s c) v' all (holds ∙ e) part in
          inl (s', rw ran (rw (is_empty-length new some_bytes) went), v'', left)
    ]

pop_of_none : (n : ℕ) (s : ReactorBuf) → s.buf ≡ none → pop n s ≡ fault assertion
unfolding pop
pop_of_none n s gone = simp (gone, pop)

length-empty : (xs : List ℕ) → length xs ≡ 0 → is_empty xs ≡ true
length-empty [] e = refl
length-empty (x ∷ xs) e = ground arith

pop_all :
    (n : ℕ) (b : IoBuf) (p : BufPool)
    → IsPool p
    → IsBuf b
    → length b.bytes ≡ n
    → (s : ReactorBuf) × (pop n (record { buf = some b; pool = p }) ≡ ok s) × (s.buf ≡ none)
unfolding pop clear io_pop
pop_all n b p v i e =
    let (p', back, v', counts) = revert-IsPool (io_pop n b) p v i.0 in
    let room : leb n (length b.bytes) ≡ true = ground arith in
    let done : is_empty (drop n b.bytes) ≡ true =
      length-empty (drop n b.bytes) (ground (arith, length-drop n b.bytes)) in
    (record { buf = none; pool = p' }, rw room (rw done (rw back refl)), refl)

process_empty_body :
    (fuel i : ℕ) (s s' : ReactorBuf)
    → read_head (contents s) ≡ some (i, 0)
    → length (contents s) ≡ 8
    → pop 8 s ≡ ok s'
    → s'.buf ≡ none
    → process (suc fuel) s ≡ fault assertion
unfolding process
process_empty_body fuel i s s' head size popped gone =
    let long : ltb (length (contents s)) 8 ≡ false = ground arith in
    rw (head, process) (rw (long, process) (rw (popped, process) (rw (pop_of_none 0 s' gone) refl)))

empty_body :
    (fuel i : ℕ) (o : Option IoBuf) (p : BufPool)
    → i < 2 ^ 32
    → IsReady (record { buf = o; pool = p })
    → contents (record { buf = o; pool = p }) ≡ head_bytes i 0
    → process (suc fuel) (record { buf = o; pool = p }) ≡ fault assertion
unfolding head_bytes int_bytes
empty_body fuel i none p l v e = let no = ap length e in ground (arith, no)
empty_body fuel i (some b) p l v e =
    let size : length b.bytes ≡ 8 = ap length e in
    let (s', popped, gone) = pop_all 8 b p v.0 v.1.0 size in
    process_empty_body fuel i (record { buf = some b; pool = p }) s'
      (ap read_head (e ∙ sym (append-nil (head_bytes i 0)))
        ∙ read_head-head_bytes i 0 [] l (ground arith))
      size popped gone

-- The waiting bytes of a connection in order are the head of a message with an empty body: as its body
-- is popped from a buffer that is gone, `dispatch` fails the assertion of `pop`.
pub dispatch_empty_body :
    (i : ℕ) (c : TcpConn)
    → i < 2 ^ 32
    → IsReady (input_of c)
    → contents (input_of c) ≡ head_bytes i 0
    → dispatch c ≡ fault assertion
unfolding dispatch
dispatch_empty_body i c l v e =
    rw (empty_body (length (contents (input_of c))) i c.ibuf c.pool l v e) refl
