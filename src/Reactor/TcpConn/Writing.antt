-- ===== src/Reactor/TcpConn/Writing.antt =====
-- `do_write` hands to the socket what `tcp_client::do_write` does.
use lars.Base.{
  ℕ, ◌≡◌, refl, ◌∙◌, Bool, false, not, ◌&&◌, List, [], ◌∷◌, if◌then◌else◌, ◌==◌, length, drop,
  is_empty, ◌⊎◌, Fault, Result, ok, fault, ◌>>=◌, arith, Bool-cases, inl, inr,
}
use lars.Reactor.ReactorBuf.{ReactorBuf, Ret, minus_one, ret, Written, contents, write2fd}
use lars.Reactor.ReactorBuf.Append.{IsReady}
use lars.Reactor.TcpConn.{TcpConn, output_of, with_output, write_all, clean_conn, do_write}
use lars.Reactor.TcpClient.{drain}
use lars.Reactor.TcpClient.Draining.{taken, Fits, drain-Drained}

-- The loops of the two classes differ in the cleaning only.
abbrev after_drain : TcpConn → Bool × ReactorBuf → Result TcpConn
after_drain c o = if o.0 then clean_conn (with_output o.1 c) else ok (with_output o.1 c)

Ret-cases :
    (r : Result (Ret × ReactorBuf))
    → ((f : Fault) × (r ≡ fault f))
      ⊎ (((s : ReactorBuf) × (r ≡ ok (minus_one, s)))
          ⊎ ((n : ℕ) × (s : ReactorBuf) × (r ≡ ok (ret n, s))))
Ret-cases (fault f) = inl (f, refl)
Ret-cases (ok (minus_one, s)) = inr (inl (s, refl))
Ret-cases (ok (ret n, s)) = inr (inr (n, s, refl))

write_all-drain :
    (ws : List Written) (c : TcpConn) → write_all ws c ≡ (drain ws (output_of c) >>= after_drain c)
unfolding write_all drain
write_all-drain [] c = refl
write_all-drain (w ∷ ws) c = elim (Bool-cases (is_empty (contents (output_of c)))) [
  | inl e ↦ rw e refl
  | inr e ↦ rw e (elim (Ret-cases (write2fd w (output_of c))) [
    | inl (f, ran) ↦ rw ran refl
    | inr (inl (s, ran)) ↦ rw ran refl
    | inr (inr (n, s, ran)) ↦ rw ran (elim (Bool-cases (n == 0)) [
      | inl none_taken ↦ rw none_taken refl
      | inr some_taken ↦ rw some_taken (write_all-drain ws (with_output s c))
    ])
  ])
]

-- `do_write` on a connection whose output is in order, as long as `write` does not fail: what `write`
-- takes goes off the front, and EPOLLOUT stays on exactly if it was and bytes are left.
pub do_write_lem :
    (ws : List Written) (c : TcpConn)
    → IsReady (output_of c)
    → Fits ws (length (contents (output_of c)))
    → (taken ws (length (contents (output_of c)))).1 ≡ false
    → (c' : TcpConn) × (do_write ws c ≡ ok c')
      × IsReady (output_of c')
      × (contents (output_of c')
          ≡ drop (taken ws (length (contents (output_of c)))).0 (contents (output_of c)))
      × (c'.wants_write ≡ (c.wants_write && not (is_empty (contents (output_of c')))))
unfolding do_write
do_write_lem ws c v fits fine =
    let (s, ran, v', left) = drain-Drained ws (output_of c) v fits in
    let wrote : write_all ws c ≡ ok (with_output s c) =
      write_all-drain ws c ∙ rw ran (rw fine refl) in
    elim (Bool-cases (is_empty (contents s))) [
      | inl e ↦ (
        record (with_output s c) { wants_write = false },
        rw wrote (rw e refl),
        v',
        left,
        rw e (ground arith),
      )
      | inr e ↦ (with_output s c, rw wrote (rw e refl), v', left, rw e (ground arith))
    ]
