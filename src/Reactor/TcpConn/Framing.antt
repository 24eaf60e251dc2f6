-- ===== src/Reactor/TcpConn/Framing.antt =====
-- Heads and bodies: what is written is what is read.
use lars.Base.{
  ℕ, ◌+◌, ◌/◌, ◌%◌, ◌^◌, ◌≤◌, ◌<◌, ◌≡◌, refl, Bool, true, not, ◌&&◌, List, [], ◌∷◌, ◌++◌, none,
  some, ltb, length, take, drop, arith,
}
use lars.Reactor.TcpConn.{Message, int_bytes, bytes_int, head_bytes, read_head, bad_length}

pub bytes_int-int_bytes :
    (n : ℕ)
    → n < 2 ^ 32
    → bytes_int (n % 256) (n / 256 % 256) (n / 65536 % 256) (n / 16777216 % 256) ≡ n
bytes_int-int_bytes n l = ground arith

-- The head of two 32-bit patterns, in front of any bytes, is read back with both its fields.
pub read_head-head_bytes :
    (msgid msglen : ℕ) (rest : List ℕ)
    → msgid < 2 ^ 32
    → msglen < 2 ^ 32
    → read_head (head_bytes msgid msglen ++ rest) ≡ some (msgid, msglen)
unfolding head_bytes int_bytes read_head
read_head-head_bytes msgid msglen rest i l =
    rw (bytes_int-int_bytes msgid i) (rw (bytes_int-int_bytes msglen l) refl)

-- The bytes of a message, as `send_message` writes them, and of several in turn.
abbrev pub encode : Message → List ℕ
encode m = head_bytes m.msgid (length m.body) ++ m.body

abbrev pub encode_all : List Message → List ℕ
encode_all [] = []
encode_all (m ∷ ms) = encode m ++ encode_all ms

-- A message that the receiver takes: an `int` for the id and a body of a byte at least and of no more
-- than the limit.
abbrev pub IsMessage : Message → Type 0
IsMessage m = (m.msgid < 2 ^ 32) × (0 < length m.body) × (length m.body ≤ 65527)

abbrev pub AllMessages : List Message → Type 0
AllMessages [] = Unit {0}
AllMessages (m ∷ ms) = IsMessage m × AllMessages ms

-- Less than a message: no head, or a head whose body is not all there.
abbrev pub is_partial : List ℕ → Bool
is_partial bs = elim (read_head bs) [
  | none ↦ true
  | some h ↦ not (bad_length h.1) && ltb (length bs) (8 + h.1)
]

pub take-append : (xs ys : List ℕ) → take (length xs) (xs ++ ys) ≡ xs
take-append [] ys = ground arith
take-append (x ∷ xs) ys = ground (arith, take-append xs ys)

pub drop-append : (xs ys : List ℕ) → drop (length xs) (xs ++ ys) ≡ ys
drop-append [] ys = ground arith
drop-append (x ∷ xs) ys = ground (arith, drop-append xs ys)

pub drop-head_bytes : (i n : ℕ) (ys : List ℕ) → drop 8 (head_bytes i n ++ ys) ≡ ys
unfolding head_bytes int_bytes
drop-head_bytes i n ys = refl

pub length-head_bytes : (i n : ℕ) (ys : List ℕ) → length (head_bytes i n ++ ys) ≡ 8 + length ys
unfolding head_bytes int_bytes
length-head_bytes i n ys = ground arith
