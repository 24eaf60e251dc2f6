-- ===== src/Reactor/ReactorBuf/Append.antt =====
-- Appending: `send_data` and `read_data` keep the bytes in order and never write past a buffer's end.
use lars.Base.{
  ℕ, ◌+◌, ◌≤◌, ◌<◌, ◌≡◌, refl, ap, length-append, Bool, true, false, ◌&&◌, ◌||◌, List, [], ◌++◌,
  Option, none, some, ◌⊎◌, inl, inr, ltb, leb, ◌==◌, length, is_empty, Result, ok, fault, exits,
  arith, Bool-cases,
}
use lars.Reactor.BufPool.{IoBuf, BufPool, alloc_buf, io_copy}
use lars.Reactor.BufPool.Classes.{is_class, IsPool, alloc_buf-IsPool, revert-IsPool, size_class_lem}
use lars.Reactor.ReactorBuf.{
  ReactorBuf, Ret, minus_one, ret, contents, reserve, replace, append, send_data, read_data,
}

-- A buffer of one of the seven sizes that holds its bytes.
abbrev pub IsBuf : IoBuf → Type 0
IsBuf b = (is_class b.capacity ≡ true) × (b.head + length b.bytes ≤ b.capacity)

abbrev pub HasBuf : (IoBuf → Type 0) → Option IoBuf → Type 0
HasBuf P none = Unit {0}
HasBuf P (some b) = P b

-- The state between two calls: the pool is in order, and the buffer, if any, starts at its front.
abbrev pub IsReady : ReactorBuf → Type 0
IsReady s = IsPool s.pool × HasBuf (λ b. IsBuf b × (b.head ≡ 0)) s.buf

-- What `alloc_buf` does, without the size.
alloc_cases :
    (n : ℕ) (p : BufPool)
    → IsPool p
    → ((8388608 < n) × (alloc_buf n p ≡ ok (none, p)))
      ⊎ (((b : IoBuf) × (p' : BufPool) × (alloc_buf n p ≡ ok (some b, p'))
            × (is_class b.capacity ≡ true)
            × (n ≤ b.capacity)
            × (b.head ≡ 0)
            × (b.bytes ≡ [])
            × IsPool p')
          ⊎ (alloc_buf n p ≡ fault exits))
alloc_cases n p v = elim (alloc_buf-IsPool n p v) [
  | inl big ↦ inl big
  | inr (k, e, inr (stops, no_more, full)) ↦ inr (inr stops)
  | inr (k, e, inl (b, p', ran, free, v')) ↦ elim (size_class_lem n) [
    | inr (e', big) ↦ ground (arith, e, e')
    | inl (k', e', c, fits, least) ↦
        let same : k' ≡ k = ground (arith, e, e') in
        inr (
          inl (
            b,
            p',
            ran,
            ground (arith, free.0, same, c, ap is_class free.0, ap is_class same),
            ground (arith, free.0),
            free.1,
            free.2,
            v',
          ))
  ]
]

-- What `reserve` answers from a state in order: room, no buffer for so many bytes, or the exit.
abbrev Reserved : ℕ → ReactorBuf → Result (Bool × ReactorBuf) → Type 0
Reserved n s r =
    ((b : IoBuf) × (p : BufPool) × (r ≡ ok (true, record { buf = some b; pool = p }))
      × IsPool p
      × (is_class b.capacity ≡ true)
      × (b.head ≡ 0)
      × (b.bytes ≡ contents s)
      × (n + length b.bytes ≤ b.capacity))
    ⊎ (((r ≡ ok (false, s)) × (8388608 < n + length (contents s))) ⊎ (r ≡ fault exits))

reserve_empty :
    (n : ℕ) (p : BufPool)
    → IsPool p
    → Reserved n (record { buf = none; pool = p }) (reserve n (record { buf = none; pool = p }))
unfolding reserve
reserve_empty n p v = elim (alloc_cases n p v) [
  | inl (big, e) ↦ inr (inl (rw e refl, ground arith))
  | inr (inr e) ↦ inr (inr (rw e refl))
  | inr (inl (b, p', e, c, fits, h, z, v')) ↦
      inl (b, p', rw e refl, v', c, h, z, rw z (ground arith))
]

replace-Reserved :
    (n : ℕ) (b : IoBuf) (p : BufPool)
    → IsPool p
    → IsBuf b
    → Reserved n (record { buf = some b; pool = p }) (replace n b p)
unfolding replace io_copy
replace-Reserved n b p v i = elim (alloc_cases (n + length b.bytes) p v) [
  | inl (big, e) ↦ inr (inl (rw e refl, big))
  | inr (inr e) ↦ inr (inr (rw e refl))
  | inr (inl (b', p', e, c, fits, h, z, v')) ↦
      let (p'', back, v'', counts) = revert-IsPool b p' v' i.0 in
      let room : leb (length b.bytes) b'.capacity ≡ true = ground arith in
      inl (
        record b' { head = 0; bytes = b.bytes },
        p'',
        rw e (rw room (rw back refl)),
        v'',
        c,
        refl,
        refl,
        fits,
      )
]

reserve_full :
    (n : ℕ) (b : IoBuf) (p : BufPool)
    → IsPool p
    → IsBuf b
    → b.head ≡ 0
    → Reserved n (record { buf = some b; pool = p }) (reserve n (record { buf = some b; pool = p }))
unfolding reserve
reserve_full n b p v i h =
    let zero_head : (b.head == 0) ≡ true = ground arith in
    elim (Bool-cases (ltb b.capacity (n + length b.bytes))) [
      | inl small ↦ rw zero_head (rw small (replace-Reserved n b p v i))
      | inr room ↦ rw zero_head (rw room (inl (b, p, refl, v, i.0, h, refl, ground arith)))
    ]

reserve_any :
    (o : Option IoBuf) (p : BufPool) (n : ℕ)
    → IsReady (record { buf = o; pool = p })
    → Reserved n (record { buf = o; pool = p }) (reserve n (record { buf = o; pool = p }))
reserve_any none p n v = reserve_empty n p v.0
reserve_any (some b) p n v = reserve_full n b p v.0 v.1.0 v.1.1

reserve-Reserved : (s : ReactorBuf) (n : ℕ) → IsReady s → Reserved n s (reserve n s)
reserve-Reserved s n v = reserve_any s.buf s.pool n v

-- What an append of `new` answers: the bytes are behind those that waited and the state is in order, or
-- nothing changed as there is no buffer for so many, or the memory limit is reached and the process exits.
abbrev pub Appended : List ℕ → ℕ → ℕ → ReactorBuf → Result (Ret × ReactorBuf) → Type 0
Appended new room code s r =
    ((s' : ReactorBuf) × (r ≡ ok (ret code, s')) × IsReady s' × (contents s' ≡ contents s ++ new))
    ⊎ (((r ≡ ok (minus_one, s)) × (8388608 < room + length (contents s))) ⊎ (r ≡ fault exits))

-- `send_data` from a state in order returns 0 with the new bytes behind those that waited and the
-- state in order; or it returns -1 and changes nothing, where all the bytes are more than the largest
-- buffer holds; or the memory limit is reached and the process exits.
pub send_data-Appended :
    (new : List ℕ) (s : ReactorBuf) → IsReady s → Appended new (length new) 0 s (send_data new s)
unfolding send_data append
send_data-Appended new s v = elim (reserve-Reserved s (length new) v) [
  | inr (inl (e, big)) ↦ inr (inl (rw e refl, big))
  | inr (inr e) ↦ inr (inr (rw e refl))
  | inl (b, p, e, v', c, h, z, room) ↦
      let fits : (leb (length b.bytes + length new) b.capacity && (b.head == 0)) ≡ true =
        ground arith in
      inl (
        record { buf = some (record b { bytes = b.bytes ++ new }); pool = p },
        rw e (rw fits refl),
        (v', ((c, ground (arith, length-append b.bytes new)), h)),
        ap (λ bs. bs ++ new) z,
      )
]

-- `read_data` from a state in order, where `read` fetches the bytes that `ioctl` announced, one at
-- least: it returns their number with the new bytes behind those that waited and the state in order;
-- or it returns -1 and changes nothing, where all the bytes are more than the largest buffer holds; or
-- the memory limit is reached and the process exits.
pub read_data-Appended :
    (new : List ℕ) (s : ReactorBuf)
    → IsReady s
    → is_empty new ≡ false
    → Appended new (length new) (length new) s (read_data (some (length new)) (some new) s)
unfolding read_data append
read_data-Appended new s v some_bytes = elim (reserve-Reserved s (length new) v) [
  | inr (inl (e, big)) ↦ inr (inl (rw e refl, big))
  | inr (inr e) ↦ inr (inr (rw e refl))
  | inl (b, p, e, v', c, h, z, room) ↦
      let fits : (leb (length b.bytes + length new) b.capacity && (b.head == 0)) ≡ true =
        ground arith in
      let told : ((length new == 0) || (length new == length new)) ≡ true = ground arith in
      inl (
        record { buf = some (record b { bytes = b.bytes ++ new }); pool = p },
        rw e (rw some_bytes (rw told (rw fits refl))),
        (v', ((c, ground (arith, length-append b.bytes new)), h)),
        ap (λ bs. bs ++ new) z,
      )
]
