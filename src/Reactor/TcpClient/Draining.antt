-- ===== src/Reactor/TcpClient/Draining.antt =====
-- What `do_write` hands to the socket. tcp_conn::do_write has the same loop.
use lars.Base.{
  ℕ, zero, suc, ◌||◌, ◌⊎◌, ◌+◌, ◌-◌, ◌≤◌, ◌≡◌, refl, ap, sym, ◌∙◌, Bool, true, false, List, [], ◌∷◌,
  Option, none, some, if◌then◌else◌, ◌==◌, length, drop, is_empty, Result, ok, arith, Bool-cases,
  inl, inr, length-drop,
}
use lars.Reactor.BufPool.{IoBuf, BufPool, io_pop, io_adjust}
use lars.Reactor.ReactorBuf.{ReactorBuf, Written, failed, again, wrote, contents, write2fd, ret}
use lars.Reactor.ReactorBuf.Append.{IsReady}
use lars.Reactor.TcpClient.{drain}

-- How many of `n` bytes the answers take, and whether an error ends the loop.
abbrev pub taken : List Written → ℕ → ℕ × Bool
taken [] n = (0, false)
taken (failed ∷ ws) n = (0, if n == 0 then false else true)
taken (again ∷ ws) n = (0, false)
taken (wrote k ∷ ws) n =
    let rest = taken ws (n - k) in if (n == 0) || (k == 0) then (0, false) else (k + rest.0, rest.1)

-- `write` takes no more bytes than there are.
abbrev pub Fits : List Written → ℕ → Type 0
Fits [] n = Unit {0}
Fits (failed ∷ ws) n = Unit {0}
Fits (again ∷ ws) n = Unit {0}
Fits (wrote k ∷ ws) n = (k ≤ n) × Fits ws (n - k)

drop-nil : (n : ℕ) → drop {A = ℕ} n [] ≡ []
drop-nil zero = refl
drop-nil (suc n) = refl

drop-drop : (a b : ℕ) (xs : List ℕ) → drop b (drop a xs) ≡ drop (a + b) xs
drop-drop zero b xs = ground arith
drop-drop (suc a) b [] = drop-nil b ∙ sym (drop-nil (suc a + b))
drop-drop (suc a) b (x ∷ xs) =
    let e : suc (a + b) ≡ suc a + b = omega arith in drop-drop a b xs ∙ ap (λ n. drop n (x ∷ xs)) e

pub length-is_empty : (xs : List ℕ) → is_empty xs ≡ (length xs == 0)
length-is_empty [] = refl
length-is_empty (x ∷ xs) = ground arith

-- One write that takes bytes.
wrote-IsReady :
    (k : ℕ) (o : Option IoBuf) (p : BufPool)
    → IsReady (record { buf = o; pool = p })
    → is_empty (contents (record { buf = o; pool = p })) ≡ false
    → k ≤ length (contents (record { buf = o; pool = p }))
    → (s : ReactorBuf) × (write2fd (wrote k) (record { buf = o; pool = p }) ≡ ok (ret k, s))
      × IsReady s
      × (contents s ≡ drop k (contents (record { buf = o; pool = p })))
unfolding write2fd io_pop io_adjust
wrote-IsReady k none p v some_bytes fits = ground arith
wrote-IsReady k (some b) p v some_bytes fits =
    let zero_head : (b.head == 0) ≡ true = ground arith in
    (
      record { buf = some (io_adjust (io_pop k b)); pool = p },
      rw zero_head refl,
      (v.0, ((v.1.0.0, ground (arith, length-drop k b.bytes)), refl)),
      refl,
    )

-- What a loop over these answers leaves of `s`.
abbrev pub Drained : List Written → ReactorBuf → Result (Bool × ReactorBuf) → Type 0
Drained ws s r =
    (s' : ReactorBuf) × (r ≡ ok ((taken ws (length (contents s))).1, s'))
    × IsReady s'
    × (contents s' ≡ drop (taken ws (length (contents s))).0 (contents s))

drain_empty :
    (w : Written) (ws : List Written) (s : ReactorBuf)
    → IsReady s
    → is_empty (contents s) ≡ true
    → Drained (w ∷ ws) s (drain (w ∷ ws) s)
unfolding drain
drain_empty failed ws s v e =
    let z = length-is_empty (contents s) in (s, rw e (ground arith), v, ground arith)
drain_empty again ws s v e = (s, rw e refl, v, refl)
drain_empty (wrote k) ws s v e =
    let z = length-is_empty (contents s) in (s, rw e (ground arith), v, ground arith)

drain_stop :
    (w : Written) (ws : List Written) (o : Option IoBuf) (p : BufPool)
    → IsReady (record { buf = o; pool = p })
    → is_empty (contents (record { buf = o; pool = p })) ≡ false
    → (w ≡ failed) ⊎ (w ≡ again)
    → Drained
        (w ∷ ws)
        (record { buf = o; pool = p })
        (drain (w ∷ ws) (record { buf = o; pool = p }))
unfolding drain write2fd
drain_stop w ws none p v e which = ground arith
drain_stop w ws (some b) p v e which =
    let zero_head : (b.head == 0) ≡ true = ground arith in
    let z = length-is_empty b.bytes in
    elim which [
      | inl f ↦
          rw f (record { buf = some b; pool = p }, rw e (rw zero_head (ground arith)), v, refl)
      | inr f ↦ rw f (record { buf = some b; pool = p }, rw e (rw zero_head refl), v, refl)
    ]

-- The loop of `do_write` on a buffer in order: what `write` takes goes off the front, all of it and
-- nothing else, and the buffer stays in order; `true` comes back when an error ended the loop.
pub drain-Drained :
    (ws : List Written) (s : ReactorBuf)
    → IsReady s
    → Fits ws (length (contents s))
    → Drained ws s (drain ws s)
unfolding drain
drain-Drained [] s v fits = (s, refl, v, refl)
drain-Drained (failed ∷ ws) s v fits = elim (Bool-cases (is_empty (contents s))) [
  | inl e ↦ drain_empty failed ws s v e
  | inr e ↦ drain_stop failed ws s.buf s.pool v e (inl refl)
]
drain-Drained (again ∷ ws) s v fits = elim (Bool-cases (is_empty (contents s))) [
  | inl e ↦ drain_empty again ws s v e
  | inr e ↦ drain_stop again ws s.buf s.pool v e (inr refl)
]
drain-Drained (wrote k ∷ ws) s v fits = elim (Bool-cases (is_empty (contents s))) [
  | inl e ↦ drain_empty (wrote k) ws s v e
  | inr e ↦
      let (s1, ran, v1, left) = wrote-IsReady k s.buf s.pool v e fits.0 in
      let size : length (contents s1) ≡ length (contents s) - k =
        ap length left ∙ length-drop k (contents s) in
      let some_bytes : (length (contents s) == 0) ≡ false =
        sym (length-is_empty (contents s)) ∙ e in
      let (s', ran', v', left') = drain-Drained ws s1 v1 (rw size fits.1) in
      elim (Bool-cases (k == 0)) [
        | inl z ↦ (
          s1,
          rw (drain, e) (rw ran (rw z (ground arith))),
          v1,
          ground (arith, left, ap (λ j. drop j (contents s)) {x = k} {y = 0}),
        )
        | inr nz ↦ (
          s',
          rw (drain, e)
              (rw ran (rw (nz, some_bytes) (ran' ∙ ap (λ n. ok ((taken ws n).1, s')) size))),
          v',
          rw (nz, some_bytes)
              (left'
                ∙ ap (λ n. drop (taken ws n).0 (contents s1)) size
                ∙ ap (drop (taken ws (length (contents s) - k)).0) left
                ∙ drop-drop k (taken ws (length (contents s) - k)).0 (contents s)),
        )
      ]
]
