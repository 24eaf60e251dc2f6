-- ===== src/Reactor/TcpClient/Connecting.antt =====
-- A message that is sent while the connection is being made.
use lars.Base.{
  ℕ, ◌+◌, ◌≤◌, ◌≡◌, refl, ap, sym, subst, ◌∙◌, Bool, length-drop, true, false, List, [], ◌++◌, none,
  some, ◌⊎◌, inl, inr, length, is_empty, Result, ok, fault, exits, arith, get_or, if◌then◌else◌,
}
use lars.Base.Dict.{lookup, lookup-insert, lookup-erase}
use lars.Reactor.BufPool.{BufPool}
use lars.Reactor.BufPool.Classes.{IsPool}
use lars.Reactor.ReactorBuf.{ReactorBuf, Written, contents, ret}
use lars.Reactor.ReactorBuf.Append.{IsReady}
use lars.Reactor.TcpConn.{Message}
use lars.Reactor.TcpConn.Framing.{encode, length-head_bytes}
use lars.Reactor.EventLoop.{
  new_io_event, EventLoop, add_io_event, del_io_event, del_io_mask, fire, calls, set_callback, join,
}
use lars.Reactor.TcpClient.{
  TcpClient, send_message, do_write, write_callback, succ_callback, epollout, output_of,
  with_output, watch, unwatch,
}
use lars.Reactor.TcpConn.Sending.{send_data-encode}
use lars.Reactor.TcpClient.Draining.{drain-Drained, Fits, taken, length-is_empty}

-- `send_message` on a client whose output buffer is in order, where the message fits: the bytes are
-- behind those that wait, and the write event is asked for if nothing waited.
pub send_message-Appended :
    (m : Message) (c : TcpClient)
    → IsReady (output_of c)
    → length (contents (output_of c)) + 8 + length m.body ≤ 8388608
    → ((s : ReactorBuf) × (send_message m.body m.msgid c
          ≡ ok (
            ret 0,
            (if is_empty (contents (output_of c))
                then watch write_callback epollout (with_output s c)
                else with_output s c),
          ))
        × IsReady s
        × (contents s ≡ contents (output_of c) ++ encode m))
      ⊎ (send_message m.body m.msgid c ≡ fault exits)
unfolding send_message
send_message-Appended m c v fits = elim (send_data-encode m (output_of c) v fits) [
  | inr (inl stops) ↦ inr (rw stops refl)
  | inr (inr (s1, ran, stops)) ↦ inr (rw ran (rw stops refl))
  | inl (s1, s2, ran, ran', v', holds) ↦ inl (s2, rw ran (rw ran' refl), v', holds)
]

-- After `connect` answered EINPROGRESS for `fd`, on a loop that did not know `fd`.
abbrev pub connecting : ℕ → EventLoop → BufPool → TcpClient
connecting fd loop pool = record {
  sockfd = some fd;
  loop = (add_io_event true fd succ_callback epollout loop).1;
  ibuf = none;
  obuf = none;
  pool = pool;
  closed = [];
  started = 0;
}

-- The entry of `fd` after `add_io_event` for writing.
pub lookup-add_io_event :
    (fd proc : ℕ) (s : EventLoop)
    → lookup fd (add_io_event true fd proc epollout s).1.io_evs
      ≡ some (record {
        mask = join (get_or (lookup fd s.io_evs) new_io_event).mask epollout;
        read_callback = (get_or (lookup fd s.io_evs) new_io_event).read_callback;
        write_callback = some proc;
      })
unfolding add_io_event set_callback
lookup-add_io_event fd proc s = ground (
  arith,
  lookup-insert fd fd
      (record {
        mask = join (get_or (lookup fd s.io_evs) new_io_event).mask epollout;
        read_callback = (get_or (lookup fd s.io_evs) new_io_event).read_callback;
        write_callback = some proc;
      })
      s.io_evs,
)

-- An entry that waits for writing only.
abbrev pub Writes : ℕ → ℕ → EventLoop → Type 0
Writes fd proc s =
    lookup fd s.io_evs
    ≡ some (record { mask = epollout; read_callback = none; write_callback = some proc })

pub Writes-new :
    (fd proc : ℕ) (s : EventLoop)
    → lookup fd s.io_evs ≡ none
    → Writes fd proc (add_io_event true fd proc epollout s).1
Writes-new fd proc s new = lookup-add_io_event fd proc s ∙ rw new refl

Writes-replaced :
    (fd old proc : ℕ) (s : EventLoop)
    → Writes fd old s
    → Writes fd proc (add_io_event true fd proc epollout s).1
Writes-replaced fd old proc s w = lookup-add_io_event fd proc s ∙ rw w refl

fire-Writes :
    (fd proc : ℕ) (s : EventLoop) → Writes fd proc s → fire fd epollout false s ≡ ok (calls proc)
unfolding fire
fire-Writes fd proc s w = rw (w, fire) refl

lookup-del_io_mask :
    (fd proc : ℕ) (s : EventLoop)
    → Writes fd proc s
    → lookup fd (del_io_mask fd epollout s).1.io_evs ≡ none
unfolding del_io_mask del_io_event
lookup-del_io_mask fd proc s w = rw (w, del_io_mask) (ground (arith, lookup-erase fd fd s.io_evs))

unwatch-Writes :
    (fd proc : ℕ) (c : TcpClient)
    → c.sockfd ≡ some fd
    → Writes fd proc c.loop
    → (lookup fd (unwatch c).loop.io_evs ≡ none) × ((unwatch c).started ≡ c.started)
unfolding unwatch
unwatch-Writes fd proc c own w =
    (rw (own, unwatch) (lookup-del_io_mask fd proc c.loop w), rw (own, unwatch) refl)

-- What becomes of a client with one message out and the write event of `fd` taken from `old`.
abbrev pub Deaf : ℕ → TcpClient → Result TcpClient → Type 0
Deaf fd c r =
    (c' : TcpClient) × (r ≡ ok c') × (lookup fd c'.loop.io_evs ≡ none) × (c'.started ≡ c.started)

do_write-Deaf :
    (ws : List Written) (fd proc : ℕ) (c : TcpClient)
    → IsReady (output_of c)
    → c.sockfd ≡ some fd
    → Writes fd proc c.loop
    → Fits ws (length (contents (output_of c)))
    → taken ws (length (contents (output_of c))) ≡ (length (contents (output_of c)), false)
    → Deaf fd c (do_write ws c)
unfolding do_write
do_write-Deaf ws fd proc c v own w fits all =
    let (s', ran, v', left) = drain-Drained ws (output_of c) v fits in
    let gone : is_empty (contents s') ≡ true =
      length-is_empty (contents s')
      ∙ ground (
        arith,
        ap length left,
        length-drop (taken ws (length (contents (output_of c)))).0 (contents (output_of c)),
        ap (λ (x : ℕ × Bool). x.0) all,
      ) in
    (
      unwatch (with_output s' c),
      rw (ran, all) (rw gone refl),
      (unwatch-Writes fd proc (with_output s' c) own w).0,
      (unwatch-Writes fd proc (with_output s' c) own w).1,
    )

-- A client waits for its connection to `fd`: the loop is to call `connection_succ`. If a message that
-- fits is sent before, the loop calls `do_write` in its place, and once that has written the bytes the
-- loop has no event of `fd` at all: the hook for a new connection was not called, and an answer is
-- never read. Or the pool's limit is reached and the process exits.
pub send_message-connecting :
    (m : Message) (fd : ℕ) (loop : EventLoop) (pool : BufPool) (ws : List Written)
    → lookup fd loop.io_evs ≡ none
    → IsPool pool
    → 8 + length m.body ≤ 8388608
    → Fits ws (8 + length m.body)
    → taken ws (8 + length m.body) ≡ (8 + length m.body, false)
    → (fire fd epollout false (connecting fd loop pool).loop ≡ ok (calls succ_callback))
      × (((c : TcpClient) × (send_message m.body m.msgid (connecting fd loop pool) ≡ ok (ret 0, c))
            × (fire fd epollout false c.loop ≡ ok (calls write_callback))
            × Deaf fd (connecting fd loop pool) (do_write ws c))
          ⊎ (send_message m.body m.msgid (connecting fd loop pool) ≡ fault exits))
send_message-connecting m fd loop pool ws new v fits taking all =
    let w = Writes-new fd succ_callback loop new in
    (
      fire-Writes fd succ_callback _ w,
      elim (send_message-Appended m (connecting fd loop pool) (v, tt) (omega arith)) [
        | inr stops ↦ inr stops
        | inl (s, ran, v', holds) ↦
            let w' = Writes-replaced fd succ_callback write_callback _ w in
            let size : 8 + length m.body ≡ length (contents s) =
              sym (ap length holds ∙ length-head_bytes m.msgid (length m.body) m.body) in
            inl (
              _,
              ran,
              fire-Writes fd write_callback _ w',
              do_write-Deaf ws fd write_callback _ v' refl w' (subst (Fits ws) size taking)
                  (subst (λ n. taken ws n ≡ (n, false)) size all),
            )
      ],
    )

pub lookup-del_io_event : (fd : ℕ) (s : EventLoop) → lookup fd (del_io_event fd s).1.io_evs ≡ none
unfolding del_io_event
lookup-del_io_event fd s = ground (arith, lookup-erase fd fd s.io_evs)
