-- ===== src/Reactor/TcpClient/Linking.antt =====
-- `connection_succ` with a hook that sends.
use lars.Base.{
  ℕ, ◌+◌, ◌≤◌, ◌≡◌, refl, ap, sym, subst, ◌∙◌, Bool, length-drop, true, false, List, [], ◌∷◌, ◌++◌,
  some, ◌⊎◌, inl, inr, length, is_empty, Result, ok, fault, exits, arith, ◌>>=◌,
}
use lars.Base.Dict.{lookup, lookup-insert}
use lars.Reactor.ReactorBuf.{Written, contents}
use lars.Reactor.ReactorBuf.Append.{IsReady}
use lars.Reactor.TcpConn.{Message, head_bytes}
use lars.Reactor.TcpConn.Framing.{encode, length-head_bytes}
use lars.Reactor.EventLoop.{
  EventLoop, add_io_event, del_io_event, del_io_mask, fire, calls, set_callback,
}
use lars.Reactor.TcpClient.{
  TcpClient, connection_succ, send_message, do_write, read_callback, write_callback, epollin,
  epollout, output_of, with_output, unwatch,
}
use lars.Reactor.TcpClient.Draining.{drain-Drained, Fits, taken, length-is_empty}
use lars.Reactor.TcpClient.Connecting.{
  send_message-Appended, lookup-add_io_event, Writes, Writes-new, lookup-del_io_event,
}

-- An entry that waits for both sides.
abbrev Both : ℕ → EventLoop → Type 0
Both fd s =
    lookup fd s.io_evs
    ≡ some (record {
      mask = record { epollin = true; epollout = true };
      read_callback = some read_callback;
      write_callback = some write_callback;
    })

Both-read :
    (fd : ℕ) (s : EventLoop)
    → Writes fd write_callback s
    → Both fd (add_io_event true fd read_callback epollin s).1
unfolding add_io_event set_callback
Both-read fd s w =
    rw (w, add_io_event)
      (ground (
        arith,
        lookup-insert fd fd
            (record {
              mask = record { epollin = true; epollout = true };
              read_callback = some read_callback;
              write_callback = some write_callback;
            })
            s.io_evs,
      ))

Both-write :
    (fd : ℕ) (s : EventLoop)
    → Both fd s
    → Both fd (add_io_event true fd write_callback epollout s).1
Both-write fd s b = lookup-add_io_event fd write_callback s ∙ rw b refl

Both-fire :
    (fd : ℕ) (s : EventLoop)
    → Both fd s
    → (fire fd epollin false s ≡ ok (calls read_callback))
      × (fire fd epollout false s ≡ ok (calls write_callback))
unfolding fire
Both-fire fd s b = (rw (b, fire) refl, rw (b, fire) refl)

Both-del_io_mask :
    (fd : ℕ) (s : EventLoop)
    → Both fd s
    → lookup fd (del_io_mask fd epollout s).1.io_evs
      ≡ some (record {
        mask = epollin;
        read_callback = some read_callback;
        write_callback = some write_callback;
      })
unfolding del_io_mask
Both-del_io_mask fd s b =
    rw (b, del_io_mask)
      (ground (
        arith,
        lookup-insert fd fd
            (record {
              mask = epollin;
              read_callback = some read_callback;
              write_callback = some write_callback;
            })
            s.io_evs,
      ))

-- A hook that sends a message.
abbrev pub sending : Message → TcpClient → Result TcpClient
sending m c = send_message m.body m.msgid c >>= λ o. ok o.1

-- The client has the message waiting and the loop calls it for both sides, and once `do_write` has
-- written the bytes, the loop only reads.
abbrev pub Linked : Message → ℕ → List Written → TcpClient → TcpClient → Type 0
Linked m fd ws c d =
    (d.started ≡ c.started + 1)
    × (contents (output_of d) ≡ encode m)
    × (fire fd epollin false d.loop ≡ ok (calls read_callback))
    × (fire fd epollout false d.loop ≡ ok (calls write_callback))
    × (d' : TcpClient) × (do_write ws d ≡ ok d')
    × (contents (output_of d') ≡ [])
    × (lookup fd d'.loop.io_evs
        ≡ some (record {
          mask = epollin;
          read_callback = some read_callback;
          write_callback = some write_callback;
        }))

nil_of_is_empty : (xs : List ℕ) → is_empty xs ≡ true → xs ≡ []
nil_of_is_empty [] e = refl
nil_of_is_empty (x ∷ xs) e = ground arith

unwatch-Both :
    (fd : ℕ) (c : TcpClient)
    → c.sockfd ≡ some fd
    → Both fd c.loop
    → (contents (output_of (unwatch c)) ≡ contents (output_of c))
      × (lookup fd (unwatch c).loop.io_evs
          ≡ some (record {
            mask = epollin;
            read_callback = some read_callback;
            write_callback = some write_callback;
          }))
unfolding unwatch
unwatch-Both fd c own b = (rw (own, unwatch) refl, rw (own, unwatch) (Both-del_io_mask fd c.loop b))

do_write-Both :
    (ws : List Written) (fd : ℕ) (c : TcpClient)
    → IsReady (output_of c)
    → c.sockfd ≡ some fd
    → Both fd c.loop
    → Fits ws (length (contents (output_of c)))
    → taken ws (length (contents (output_of c))) ≡ (length (contents (output_of c)), false)
    → (d : TcpClient) × (do_write ws c ≡ ok d)
      × (contents (output_of d) ≡ [])
      × (lookup fd d.loop.io_evs
          ≡ some (record {
            mask = epollin;
            read_callback = some read_callback;
            write_callback = some write_callback;
          }))
unfolding do_write
do_write-Both ws fd c v own b fits all =
    let (s', ran, v', left) = drain-Drained ws (output_of c) v fits in
    let gone : is_empty (contents s') ≡ true =
      length-is_empty (contents s')
      ∙ ground (
        arith,
        ap length left,
        length-drop (taken ws (length (contents (output_of c)))).0 (contents (output_of c)),
        ap (λ (x : ℕ × Bool). x.0) all,
      ) in
    let after = unwatch-Both fd (with_output s' c) own b in
    (
      unwatch (with_output s' c),
      rw (ran, all) (rw gone refl),
      after.0 ∙ nil_of_is_empty (contents s') gone,
      after.1,
    )

encode_given : (m : Message) → is_empty (encode m) ≡ false
unfolding head_bytes
encode_given m = refl

-- What follows the hook, when a message waits and the loop is to write.
module _ (m : Message) (fd : ℕ) (ws : List Written) (c d : TcpClient) where
  hooked-Linked :
      (d.started ≡ c.started + 1)
      → d.sockfd ≡ some fd
      → IsReady (output_of d)
      → contents (output_of d) ≡ encode m
      → Writes fd write_callback d.loop
      → Fits ws (8 + length m.body)
      → taken ws (8 + length m.body) ≡ (8 + length m.body, false)
      → Linked m fd ws c (record d {
        loop =
            (add_io_event true fd write_callback epollout
              (add_io_event true fd read_callback epollin d.loop).1).1;
      })
  hooked-Linked count own v holds w taking all =
      let loop = (add_io_event true fd read_callback epollin d.loop).1 in
      let b = Both-write fd loop (Both-read fd d.loop w) in
      let fired = Both-fire fd (add_io_event true fd write_callback epollout loop).1 b in
      let size : 8 + length m.body ≡ length (contents (output_of d)) =
        sym (ap length holds ∙ length-head_bytes m.msgid (length m.body) m.body) in
      let wrote =
        do_write-Both ws fd
          (record d { loop = (add_io_event true fd write_callback epollout loop).1 }) v own b
          (subst (Fits ws) size taking) (subst (λ n. taken ws n ≡ (n, false)) size all) in
      (count, holds, fired.0, fired.1, wrote.0, wrote.1, wrote.2, wrote.3)

-- A client for `fd` whose output buffer is in order and empty, with a hook that sends a message that
-- fits, whatever events the loop has for `fd`; its socket has no error. `connection_succ` calls the hook
-- once, the message waits, and the loop calls the client for reading and for writing. Once `write` has
-- taken the bytes, nothing waits and the loop only reads. Or the pool's limit is reached and the process
-- exits.
pub connection_succ-sends :
    (m : Message) (fd : ℕ) (c : TcpClient) (ws : List Written)
    → c.sockfd ≡ some fd
    → IsReady (output_of c)
    → contents (output_of c) ≡ []
    → 8 + length m.body ≤ 8388608
    → Fits ws (8 + length m.body)
    → taken ws (8 + length m.body) ≡ (8 + length m.body, false)
    → ((d : TcpClient) × (connection_succ (some (sending m)) 0 fd c ≡ ok d) × Linked m fd ws c d)
      ⊎ (connection_succ (some (sending m)) 0 fd c ≡ fault exits)
unfolding connection_succ
connection_succ-sends m fd c ws own v none_waits fits taking all =
    let c1 : TcpClient = record c { loop = (del_io_event fd c.loop).1; started = c.started + 1 } in
    elim (send_message-Appended m c1 v (omega (arith, ap length none_waits))) [
      | inr stops ↦ inr (rw stops refl)
      | inl (s, ran, v', holds) ↦
          let holds' : contents s ≡ encode m = holds ∙ ap (λ bs. bs ++ encode m) none_waits in
          let size : is_empty (contents s) ≡ false = ap is_empty holds' ∙ encode_given m in
          let w =
            Writes-new fd write_callback (del_io_event fd c.loop).1
              (lookup-del_io_event fd c.loop) in
          inl (
            _,
            rw ran (rw (none_waits, own) (rw size refl)),
            hooked-Linked m fd ws c
                (record c1 {
                  loop =
                      (add_io_event true fd write_callback epollout (del_io_event fd c.loop).1).1;
                  obuf = s.buf;
                  pool = s.pool;
                })
                refl own v' holds' w taking all,
          )
    ]
