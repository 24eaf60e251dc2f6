-- ===== src/Reactor/ReactorBuf.antt =====
-- reactor_buf, input_buf and output_buf (lars_reactor/src/reactor_buf.cpp). A state is `_buf`, where
-- `none` is NULL, and the pool. What the system calls answer is an argument: the last call of a loop
-- that repeats on EINTR.
pub mod Append
use lars.Base.{
  ℕ, ◌+◌, Bool, true, false, not, ◌&&◌, ◌||◌, List, [], ◌∷◌, ◌++◌, Option, none, some,
  if◌then◌else◌, ltb, leb, ◌==◌, length, is_empty, Result, ok, fault, ◌>>=◌, ◌>>◌, assert, or_fault,
  assertion, out_of_bounds,
}
use lars.Reactor.BufPool.{IoBuf, BufPool, io_pop, io_adjust, io_copy, alloc_buf, revert}

pub record ReactorBuf : Type 0 where
  pub buf : Option IoBuf
  pub pool : BufPool

unfoldable pub clear : ReactorBuf → Result ReactorBuf
clear s = elim s.buf [
  | none ↦ ok s
  | some b ↦ revert b s.pool >>= λ p. ok (record { buf = none; pool = p })
]

unfoldable pub pop : ℕ → ReactorBuf → Result ReactorBuf
unfolding clear io_pop
pop len s = elim s.buf [
  | none ↦ fault assertion
  | some b ↦
      if leb len (length b.bytes)
      then (let b' = io_pop len b in
          let s' = record s { buf = some b' } in if is_empty b'.bytes then clear s' else ok s')
      else fault assertion
]

-- The bytes that wait in the buffer: `length()` is their number, and `data()` points to them.
abbrev pub contents : ReactorBuf → List ℕ
contents s = elim s.buf [ none ↦ [] | some b ↦ b.bytes ]

unfoldable pub adjust : ReactorBuf → ReactorBuf
unfolding io_adjust
adjust s = elim s.buf [ none ↦ s | some b ↦ record s { buf = some (io_adjust b) } ]

-- A larger buffer in the place of one that is too small.
unfoldable pub replace : ℕ → IoBuf → BufPool → Result (Bool × ReactorBuf)
unfolding io_copy
replace n b pool = alloc_buf (n + length b.bytes) pool >>= λ o. elim o.0 [
  | none ↦ ok (false, record { buf = some b; pool = o.1 })
  | some new_buf ↦ io_copy b new_buf >>= λ filled.
      revert b o.1 >>= λ p. ok (true, record { buf = some filled; pool = p })
]

-- The first half of `read_data` and of `send_data`: room for `n` more bytes, `false` where there is
-- no buffer for them.
unfoldable pub reserve : ℕ → ReactorBuf → Result (Bool × ReactorBuf)
unfolding replace
reserve n s = elim s.buf [
  | none ↦ alloc_buf n s.pool >>= λ o. elim o.0 [
    | none ↦ ok (false, record { buf = none; pool = o.1 })
    | some b ↦ ok (true, record { buf = some b; pool = o.1 })
  ]
  | some b ↦
      assert (b.head == 0)
      >> (if ltb b.capacity (n + length b.bytes) then replace n b s.pool else ok (true, s))
]

-- Bytes are written at `data + length`, which a buffer with another `head` has in use.
unfoldable pub append : List ℕ → ReactorBuf → Result ReactorBuf
append new s = elim s.buf [
  | none ↦ fault assertion
  | some b ↦
      if leb (length b.bytes + length new) b.capacity && (b.head == 0)
      then ok (record s { buf = some (record b { bytes = b.bytes ++ new }) })
      else fault out_of_bounds
]

-- What a call returns: -1, or a number.
pub data Ret : Type 0 where
  minus_one : Ret
  ret : ℕ → Ret

-- `send_data`.
unfoldable pub send_data : List ℕ → ReactorBuf → Result (Ret × ReactorBuf)
unfolding reserve append
send_data new s = reserve (length new) s >>= λ o.
    if o.0 then (append new o.1 >>= λ s'. ok (ret 0, s')) else ok (minus_one, o.1)

-- `read_data`: `ready` is what `ioctl` finds in the socket, `received` what `read` fetches, `none` for
-- their -1.
unfoldable pub read_data : Option ℕ → Option (List ℕ) → ReactorBuf → Result (Ret × ReactorBuf)
unfolding reserve append
read_data none received s = ok (minus_one, s)
read_data (some need_read) received s = reserve need_read s >>= λ o.
    if o.0
    then (elim received [
      | none ↦ ok (minus_one, o.1)
      | some new ↦
          if is_empty new
          then ok (ret 0, o.1)
          else (assert ((need_read == 0) || (length new == need_read))
              >> (append new o.1 >>= λ s'. ok (ret (length new), s')))
    ])
    else ok (minus_one, o.1)

-- What `write` answers, once it is not interrupted: an error, EAGAIN, or a number of bytes.
pub data Written : Type 0 where
  failed again : Written
  wrote : ℕ → Written

unfoldable pub write2fd : Written → ReactorBuf → Result (Ret × ReactorBuf)
unfolding io_pop io_adjust
write2fd w s = elim s.buf [
  | none ↦ fault assertion
  | some b ↦ assert (b.head == 0) >> (elim w [
    | failed ↦ ok (minus_one, s)
    | again ↦ ok (ret 0, s)
    | wrote n ↦ ok (ret n, record s { buf = some (io_adjust (io_pop n b)) })
  ])
]
