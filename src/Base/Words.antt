-- ===== src/Base/Words.antt =====
-- Machine words. An `int` is its 32-bit pattern, a number below 2^32.
use lars.Base.Tests.{ltb, if◌then◌else◌}
use Prim.Native.Nat.{ℕ, ◌+◌, ◌-◌, ◌*◌, ◌/◌, ◌%◌, ◌^◌, ◌≤◌, ◌<◌}
use mathlib.Core.Path.{◌≡◌}
use native.Mathlib.Omega.{arith}

-- `uint32_t` and `int` increments.
abbrev pub inc32 : ℕ → ℕ
inc32 a = (a + 1) % 2 ^ 32

abbrev pub add32 : ℕ → ℕ → ℕ
add32 a b = (a + b) % 2 ^ 32

-- (uint64_t)x for an `int` x: the sign is extended.
abbrev pub extend64 : ℕ → ℕ
extend64 x = if ltb x (2 ^ 31) then x else x + (2 ^ 64 - 2 ^ 32)

-- ((uint64_t)hi << 32) + lo, with the conversions that C makes of two `int`s.
unfoldable pub pair_key : ℕ → ℕ → ℕ
pair_key hi lo = (extend64 hi * 2 ^ 32 % 2 ^ 64 + extend64 lo) % 2 ^ 64

-- (uint32_t)(key >> 32) and (uint32_t)key; `int(…)` leaves the same pattern.
unfoldable pub key_hi : ℕ → ℕ
key_hi k = k / 2 ^ 32 % 2 ^ 32

unfoldable pub key_lo : ℕ → ℕ
key_lo k = k % 2 ^ 32

pub pair_key-lt : (hi lo : ℕ) → pair_key hi lo < 2 ^ 64
unfolding pair_key
pair_key-lt hi lo = ground arith

pub key_lo-pair_key : (hi lo : ℕ) → hi < 2 ^ 32 → lo < 2 ^ 32 → key_lo (pair_key hi lo) ≡ lo
unfolding pair_key key_lo
key_lo-pair_key hi lo h l = ground arith

-- Where the low half is not negative, the high half comes back too.
pub key_hi-pair_key : (hi lo : ℕ) → hi < 2 ^ 32 → lo < 2 ^ 31 → key_hi (pair_key hi lo) ≡ hi
unfolding pair_key key_hi
key_hi-pair_key hi lo h l = ground arith

-- A negative low half borrows one from the high half.
pub key_hi-pair_key_negative :
    (hi lo : ℕ)
    → hi < 2 ^ 32
    → 2 ^ 31 ≤ lo
    → lo < 2 ^ 32
    → key_hi (pair_key hi lo) ≡ (hi + (2 ^ 32 - 1)) % 2 ^ 32
unfolding pair_key key_hi
key_hi-pair_key_negative hi lo h n l = ground arith

-- Two pairs of `int`s never share a key.
pub pair_key-injective :
    (a b c d : ℕ)
    → a < 2 ^ 32
    → b < 2 ^ 32
    → c < 2 ^ 32
    → d < 2 ^ 32
    → pair_key a b ≡ pair_key c d
    → (a ≡ c) × (b ≡ d)
unfolding pair_key
pair_key-injective a b c d ha hb hc hd e = ground arith
