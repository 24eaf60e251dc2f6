-- ===== src/Reactor/TcpConn.antt =====
-- tcp_conn (lars_reactor/src/tcp_conn.cpp) and the framing of include/message.h, which tcp_client.cpp
-- repeats. A connection has its two buffers, the pool that all share, whether it is listened to and
-- known to the server, and whether EPOLLOUT is on.
pub mod Framing
pub mod Reading
pub mod Fuel
pub mod Receiving
pub mod Sending
pub mod Segments
pub mod Writing
use lars.Base.{
  ℕ, zero, suc, ◌+◌, ◌-◌, ◌*◌, ◌/◌, ◌%◌, ◌^◌, Bool, true, false, not, ◌&&◌, ◌||◌, List, [], ◌∷◌,
  ◌++◌, Option, none, some, if◌then◌else◌, ltb, leb, ◌==◌, length, take, is_empty, Result, ok,
  fault, ◌>>=◌,
}
use lars.Reactor.BufPool.{IoBuf, BufPool}
use lars.Reactor.ReactorBuf.{
  ReactorBuf, Ret, minus_one, ret, Written, contents, clear, pop, adjust, read_data, send_data,
  write2fd,
}

-- A message as the router receives it.
pub record Message : Type 0 where
  pub msgid : ℕ
  pub body : List ℕ

-- The bytes of an `int` in memory order, and back. An `int` is its 32-bit pattern.
unfoldable pub int_bytes : ℕ → List ℕ
int_bytes n = n % 256 ∷ n / 256 % 256 ∷ n / 65536 % 256 ∷ n / 16777216 % 256 ∷ []

abbrev pub bytes_int : ℕ → ℕ → ℕ → ℕ → ℕ
bytes_int a b c d = a + 256 * b + 65536 * c + 16777216 * d

-- A message head and its two fields.
unfoldable pub head_bytes : ℕ → ℕ → List ℕ
unfolding int_bytes
head_bytes msgid msglen = int_bytes msgid ++ int_bytes msglen

-- The head at the front of the bytes, where there are eight of them.
unfoldable pub read_head : List ℕ → Option (ℕ × ℕ)
read_head (a ∷ b ∷ c ∷ d ∷ e ∷ f ∷ g ∷ h ∷ rest) = some (bytes_int a b c d, bytes_int e f g h)
read_head _ = none

abbrev pub message_length_limit : ℕ
message_length_limit = 65535 - 8

-- `msglen > MESSAGE_LENGTH_LIMIT || msglen < 0`.
abbrev pub bad_length : ℕ → Bool
bad_length msglen = ltb message_length_limit msglen || leb (2 ^ 31) msglen

-- The loop of `do_read`: the calls of the router in order, whether the data has a format error, and
-- the buffer. Every turn takes eight bytes or more, and the fuel is above the number of bytes.
unfoldable pub process : ℕ → ReactorBuf → Result (List Message × Bool × ReactorBuf)
unfolding read_head pop
process zero s = ok ([], false, s)
process (suc fuel) s = elim (read_head (contents s)) [
  | none ↦ ok ([], false, s)
  | some h ↦
      if bad_length h.1
      then ok ([], true, s)
      else if ltb (length (contents s)) (8 + h.1)
      then ok ([], false, s)
      else (pop 8 s >>= λ s'. pop h.1 s' >>= λ s''. process fuel s'' >>= λ o.
          ok (record { msgid = h.0; body = take h.1 (contents s') } ∷ o.0, o.1, o.2))
]

pub record TcpConn : Type 0 where
  pub ibuf : Option IoBuf
  pub obuf : Option IoBuf
  pub pool : BufPool
  pub is_open : Bool
  pub wants_write : Bool

abbrev pub input_of : TcpConn → ReactorBuf
input_of c = record { buf = c.ibuf; pool = c.pool }

abbrev pub output_of : TcpConn → ReactorBuf
output_of c = record { buf = c.obuf; pool = c.pool }

abbrev pub with_input : ReactorBuf → TcpConn → TcpConn
with_input s c = record c { ibuf = s.buf; pool = s.pool }

abbrev pub with_output : ReactorBuf → TcpConn → TcpConn
with_output s c = record c { obuf = s.buf; pool = s.pool }

unfoldable pub clean_conn : TcpConn → Result TcpConn
unfolding clear
clean_conn c = clear (input_of c) >>= λ s.
    let c' = with_input s (record c { is_open = false; wants_write = false }) in
    clear (output_of c') >>= λ s'. ok (with_output s' c')

-- The second half of `do_read`.
unfoldable pub dispatch : TcpConn → Result (List Message × TcpConn)
unfolding process clean_conn adjust
dispatch c = process (suc (length (contents (input_of c)))) (input_of c) >>= λ o.
    let c' = with_input o.2 c in
    if o.1
    then (clean_conn c' >>= λ cleaned. ok (o.0, cleaned))
    else ok (o.0, with_input (adjust o.2) c)

-- `do_read`, with the messages that the router is called for.
unfoldable pub do_read : Option ℕ → Option (List ℕ) → TcpConn → Result (List Message × TcpConn)
unfolding read_data clean_conn dispatch
do_read ready received c = read_data ready received (input_of c) >>= λ o.
    let c' = with_input o.1 c in
    elim o.0 [
      | minus_one ↦ clean_conn c' >>= λ cleaned. ok ([], cleaned)
      | ret n ↦ if n == 0 then (clean_conn c' >>= dispatch) else dispatch c'
    ]

-- The loop of `do_write`: what `write` answers each time it is called.
unfoldable pub write_all : List Written → TcpConn → Result TcpConn
unfolding write2fd clean_conn
write_all [] c = ok c
write_all (w ∷ ws) c =
    if is_empty (contents (output_of c))
    then ok c
    else (write2fd w (output_of c) >>= λ o.
        let c' = with_output o.1 c in
        elim o.0 [ minus_one ↦ clean_conn c' | ret n ↦ if n == 0 then ok c' else write_all ws c' ])

-- `do_write`: EPOLLOUT is turned off where nothing is left. After `clean_conn` it is off already.
unfoldable pub do_write : List Written → TcpConn → Result TcpConn
unfolding write_all
do_write ws c = write_all ws c >>= λ c'.
    ok (if is_empty (contents (output_of c')) then record c' { wants_write = false } else c')

-- `send_message`: what it returns, and whether it turns EPOLLOUT on.
unfoldable pub send_message : List ℕ → ℕ → TcpConn → Result (Ret × TcpConn)
unfolding send_data pop head_bytes
send_message body msgid c =
    let active = is_empty (contents (output_of c)) in
    send_data (head_bytes msgid (length body)) (output_of c) >>= λ o. elim o.0 [
      | minus_one ↦ ok (minus_one, with_output o.1 c)
      | ret m ↦ send_data body o.1 >>= λ o'. elim o'.0 [
        | minus_one ↦ pop 8 o'.1 >>= λ s. ok (minus_one, with_output s c)
        | ret n ↦ ok (ret 0, with_output o'.1 (record c { wants_write = active || c.wants_write }))
      ]
    ]
