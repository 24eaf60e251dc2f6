-- ===== src/Reactor/TcpConn/Fuel.antt =====
-- The fuel of the loop of `do_read` is enough for any bytes.
use lars.Base.{
  ℕ, zero, suc, ◌+◌, ◌≤◌, ◌<◌, ◌≡◌, refl, sym, ap, ◌∙◌, ◌∷◌, Option, none, some, inl, inr, ltb, leb,
  length, take, drop, is_empty, ok, ◌>>=◌, Result-cases, get_ok, arith, Bool-cases, Option-cases,
  length-drop,
}
use lars.Reactor.BufPool.{IoBuf, BufPool, io_pop, revert}
use lars.Reactor.ReactorBuf.{ReactorBuf, contents, clear, pop}
use lars.Reactor.TcpConn.{read_head, bad_length, process}
use lars.Reactor.TcpConn.Reading.{turn}

pop-length :
    (n : ℕ) (o : Option IoBuf) (p : BufPool) (s' : ReactorBuf)
    → pop n (record { buf = o; pool = p }) ≡ ok s'
    → length (contents s') + n ≤ length (contents (record { buf = o; pool = p }))
unfolding pop clear io_pop
pop-length n none p s' e = ground (arith, e)
pop-length n (some b) p s' e = elim (Bool-cases (leb n (length b.bytes))) [
  | inr lacks ↦ ground (arith, e)
  | inl room ↦ elim (Bool-cases (is_empty (drop n b.bytes))) [
    | inr more ↦
        let same : record { buf = some (io_pop n b); pool = p } ≡ s' =
          ap (get_ok s') (rw (room, more) at e) in
        rw⁻¹ same (ground (arith, length-drop n b.bytes))
    | inl done ↦ elim (Result-cases (revert (io_pop n b) p)) [
      | inr (stop, stops) ↦ let never = rw (room, done, stops) at e in ground (arith, never)
      | inl (p', back) ↦
          let same : record { buf = none; pool = p' } ≡ s' =
            ap (get_ok s') (rw (room, done, back) at e) in
          rw⁻¹ same (ground arith)
    ]
  ]
]

-- With more fuel than waiting bytes, more fuel changes nothing: the loop has ended.
pub process-fuel :
    (fuel : ℕ) (s : ReactorBuf) → length (contents s) < fuel → process (suc fuel) s ≡ process fuel s
unfolding process
process-fuel zero s l = ground arith
process-fuel (suc fuel) s l = elim (Option-cases (read_head (contents s))) [
  | inl short ↦ rw (short, process) refl
  | inr (h, head) ↦ elim (Bool-cases (bad_length h.1)) [
    | inl bad ↦ rw (head, process) (rw (bad, process) refl)
    | inr good ↦ elim (Bool-cases (ltb (length (contents s)) (8 + h.1))) [
      | inl lacks ↦ rw (head, process) (rw (good, process) (rw (lacks, process) refl))
      | inr enough ↦ elim (Result-cases (pop 8 s)) [
        | inr (e, stops) ↦
            rw (head, process)
              (rw (good, process) (rw (enough, process) (rw (stops, process) refl)))
        | inl (s1, ran1) ↦ elim (Result-cases (pop h.1 s1)) [
          | inr (e, stops) ↦
              rw (head, process)
                (rw (good, process)
                  (rw (enough, process) (rw (ran1, process) (rw (stops, process) refl))))
          | inl (s2, ran2) ↦
              let fewer = pop-length 8 s.buf s.pool s1 ran1 in
              let fewer_still = pop-length h.1 s1.buf s1.pool s2 ran2 in
              turn (suc fuel) h.0 h.1 s s1 s2 head good enough ran1 ran2
              ∙ ap
                  (λ r. r >>= λ o.
                    ok (record { msgid = h.0; body = take h.1 (contents s1) } ∷ o.0, o.1, o.2))
                  (process-fuel fuel s2 (ground (arith, fewer, fewer_still)))
              ∙ sym (turn fuel h.0 h.1 s s1 s2 head good enough ran1 ran2)
        ]
      ]
    ]
  ]
]
