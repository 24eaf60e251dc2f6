-- ===== src/Reactor/BufPool/Classes.antt =====
-- What the pool hands out, and that it stays in order.
use lars.Base.{
  ℕ, zero, suc, ◌+◌, ◌/◌, ◌≤◌, ◌<◌, ◌≡◌, refl, ap, subst, Bool, true, ◌||◌, List, [], ◌∷◌, none,
  some, ◌⊎◌, inl, inr, if◌then◌else◌, leb, ◌==◌, length, get_or, ok, fault, exits, arith,
  Bool-cases,
}
use lars.Base.Sets.{contains}
use lars.Base.Dict.{Dict, lookup, insert, has_key, lookup-insert}
use lars.Reactor.BufPool.{
  IoBuf, BufPool, free_at, new_bufs, new_buf_pool, make_io_buf_list, mem_limit, size_class,
  take_buf, alloc_buf, revert, new_io_buf,
}

-- The seven sizes.
abbrev pub is_class : ℕ → Bool
is_class k =
    (k == 4096)
    || ((k == 16384)
        || ((k == 65536)
            || ((k == 262144) || ((k == 1048576) || ((k == 4194304) || (k == 8388608))))))

-- The smallest size that fits, for all that fit at all.
pub size_class_lem :
    (n : ℕ)
    → ((k : ℕ) × (size_class n ≡ some k)
        × (is_class k ≡ true)
        × (n ≤ k)
        × ((j : ℕ) → is_class j ≡ true → n ≤ j → k ≤ j))
      ⊎ ((size_class n ≡ none) × (8388608 < n))
unfolding size_class
size_class_lem n = elim (Bool-cases (leb n 4096)) [
  | inl a ↦ inl (4096, ground arith, refl, ground arith, λ j c l. ground arith)
  | inr a ↦ elim (Bool-cases (leb n 16384)) [
    | inl b ↦ inl (16384, ground arith, refl, ground arith, λ j c l. ground arith)
    | inr b ↦ elim (Bool-cases (leb n 65536)) [
      | inl c ↦ inl (65536, ground arith, refl, ground arith, λ j c' l. ground arith)
      | inr c ↦ elim (Bool-cases (leb n 262144)) [
        | inl d ↦ inl (262144, ground arith, refl, ground arith, λ j c' l. ground arith)
        | inr d ↦ elim (Bool-cases (leb n 1048576)) [
          | inl e ↦ inl (1048576, ground arith, refl, ground arith, λ j c' l. ground arith)
          | inr e ↦ elim (Bool-cases (leb n 4194304)) [
            | inl f ↦ inl (4194304, ground arith, refl, ground arith, λ j c' l. ground arith)
            | inr f ↦ elim (Bool-cases (leb n 8388608)) [
              | inl g ↦ inl (8388608, ground arith, refl, ground arith, λ j c' l. ground arith)
              | inr g ↦ inr (ground arith, ground arith)
            ]
          ]
        ]
      ]
    ]
  ]
]

-- A free buffer of size `k` is empty and at its start.
abbrev pub IsFree : ℕ → IoBuf → Type 0
IsFree k b = (b.capacity ≡ k) × (b.head ≡ 0) × (b.bytes ≡ [])

abbrev pub AllFree : ℕ → List IoBuf → Type 0
AllFree k [] = Unit {0}
AllFree k (b ∷ bs) = IsFree k b × AllFree k bs

-- Every size has a list, the lists are of free buffers of their size, and the memory is under the limit.
abbrev pub IsPool : BufPool → Type 0
IsPool p =
    ((k : ℕ) → is_class k ≡ true → has_key k p.pool ≡ true)
    × ((k : ℕ) → AllFree k (free_at k p))
    × (p.total_mem < mem_limit)

-- A list is put in place of another.
pub insert-IsPool :
    (k : ℕ) (bs : List IoBuf) (p : BufPool) (mem : ℕ)
    → IsPool p
    → AllFree k bs
    → mem < mem_limit
    → IsPool (record { pool = insert k bs p.pool; total_mem = mem })
insert-IsPool k bs p mem v all m = (
  λ j c. ground (arith, lookup-insert k j bs p.pool, v.0 j c),
  λ j. elim (Bool-cases (k == j)) [
    | inl same ↦
        let e : j ≡ k = ground arith in rw (lookup-insert k j bs p.pool) (rw same (rw e all))
    | inr other ↦ rw (lookup-insert k j bs p.pool) (rw other (v.1 j))
  ],
  m,
)

List-cases : (bs : List IoBuf) → (bs ≡ []) ⊎ ((b : IoBuf) × (rest : List IoBuf) × (bs ≡ b ∷ rest))
List-cases [] = inl refl
List-cases (b ∷ rest) = inr (b, rest, refl)

free-cases :
    (k : ℕ) (p : BufPool)
    → (free_at k p ≡ []) ⊎ ((b : IoBuf) × (rest : List IoBuf) × (free_at k p ≡ b ∷ rest))
free-cases k p = List-cases (free_at k p)

-- `alloc_buf` of a pool in order, on every branch: more than the largest size gets NULL, and else
-- there is an empty buffer of the smallest size that fits and the pool stays in order, or the process
-- exits, with no free buffer of that size left and the memory limit reached.
pub alloc_buf-IsPool :
    (n : ℕ) (p : BufPool)
    → IsPool p
    → ((8388608 < n) × (alloc_buf n p ≡ ok (none, p)))
      ⊎ ((k : ℕ) × (size_class n ≡ some k)
          × (((b : IoBuf) × (p' : BufPool) × (alloc_buf n p ≡ ok (some b, p'))
                × IsFree k b
                × IsPool p')
              ⊎ ((alloc_buf n p ≡ fault exits)
                  × (free_at k p ≡ [])
                  × (mem_limit ≤ p.total_mem + k / 1024))))
unfolding alloc_buf take_buf new_io_buf
alloc_buf-IsPool n p v = elim (size_class_lem n) [
  | inr (e, big) ↦ inl (big, rw (e, alloc_buf) refl)
  | inl (k, e, c, fits, least) ↦ inr (
    k,
    e,
    elim (free-cases k p) [
      | inl e0 ↦ elim (Bool-cases (leb mem_limit (p.total_mem + k / 1024))) [
        | inl over ↦ inr (rw (e, alloc_buf) (rw (e0, take_buf) (rw over refl)), e0, ground arith)
        | inr room ↦ inl (
          new_io_buf k,
          record { pool = insert k [] p.pool; total_mem = p.total_mem + k / 1024 },
          rw (e, alloc_buf) (rw (e0, take_buf) (rw room refl)),
          (refl, refl, refl),
          insert-IsPool k [] p _ v tt (ground arith),
        )
      ]
      | inr (b, rest, e0) ↦
          let all : AllFree k (b ∷ rest) = subst (AllFree k) e0 (v.1 k) in
          inl (
            b,
            record p { pool = insert k rest p.pool },
            rw (e, alloc_buf) (rw (e0, take_buf) refl),
            all.0,
            insert-IsPool k rest p _ v all.1 v.2,
          )
    ],
  )
]

-- `revert` of a buffer of one of the seven sizes succeeds, with the pool in order and one more free
-- buffer of that size.
pub revert-IsPool :
    (b : IoBuf) (p : BufPool)
    → IsPool p
    → is_class b.capacity ≡ true
    → (p' : BufPool) × (revert b p ≡ ok p')
      × IsPool p'
      × ((k : ℕ)
          → length (free_at k p') ≡ length (free_at k p) + (if b.capacity == k then 1 else 0))
unfolding revert
revert-IsPool b p v c =
    let has : has_key b.capacity p.pool ≡ true = v.0 b.capacity c in
    (
      record p {
        pool = insert b.capacity (record b { head = 0; bytes = [] } ∷ free_at b.capacity p) p.pool;
      },
      rw (has, revert) refl,
      insert-IsPool b.capacity _ p _ v ((refl, refl, refl), v.1 b.capacity) v.2,
      λ k. ground (
        arith,
        lookup-insert b.capacity k (record b { head = 0; bytes = [] } ∷ free_at b.capacity p)
            p.pool,
        ap (λ j. length (free_at j p)) {x = b.capacity} {y = k},
      ),
    )

new_bufs-AllFree : (k n : ℕ) → AllFree k (new_bufs k n)
unfolding new_bufs new_io_buf
new_bufs-AllFree k zero = tt
new_bufs-AllFree k (suc n) = ((refl, refl, refl), new_bufs-AllFree k n)

-- What `make_io_buf_list` keeps and adds in `_pool`.
abbrev Made : List ℕ → Dict (List IoBuf) → Type 0
Made ks m =
    ((k : ℕ) → contains k ks ≡ true → has_key k m ≡ true)
    × ((k : ℕ) → AllFree k (get_or (lookup k m) []))

insert-Made :
    (k n : ℕ) (ks : List ℕ) (m : Dict (List IoBuf))
    → Made ks m
    → Made (k ∷ ks) (insert k (new_bufs k n) m)
unfolding contains
insert-Made k n ks m v = (
  λ j c. ground (arith, lookup-insert k j (new_bufs k n) m, v.0 j),
  λ j. elim (Bool-cases (k == j)) [
    | inl same ↦
        let e : j ≡ k = ground arith in
        rw (lookup-insert k j (new_bufs k n) m) (rw same (rw e (new_bufs-AllFree k n)))
    | inr other ↦ rw (lookup-insert k j (new_bufs k n) m) (rw other (v.1 j))
  ],
)

empty_Made : Made [] []
unfolding contains lookup
empty_Made = (λ k h. ground arith, λ k. tt)

new_buf_pool-Made :
    Made (8388608 ∷ 4194304 ∷ 1048576 ∷ 262144 ∷ 65536 ∷ 16384 ∷ 4096 ∷ []) new_buf_pool.pool
unfolding new_buf_pool make_io_buf_list
new_buf_pool-Made = insert-Made 8388608 10 _ _ (
    insert-Made 4194304 20 _ _ (
      insert-Made 1048576 50 _ _ (
        insert-Made 262144 200 _ _ (
          insert-Made 65536 500 _ _
            (insert-Made 16384 1000 _ _ (insert-Made 4096 5000 [] [] empty_Made))))))

new_buf_pool-total : new_buf_pool.total_mem ≡ 334240
unfolding new_buf_pool make_io_buf_list
new_buf_pool-total = refl

-- The pool that the constructor makes is in order.
pub new_buf_pool-IsPool : IsPool new_buf_pool
unfolding contains
new_buf_pool-IsPool = (
  λ k c. new_buf_pool-Made.0 k (ground arith),
  new_buf_pool-Made.1,
  ground (arith, new_buf_pool-total),
)
