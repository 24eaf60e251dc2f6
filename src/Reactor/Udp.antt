-- ===== src/Reactor/Udp.antt =====
-- udp_server (lars_reactor/src/udp_server.cpp). `C` and `A` are the callbacks and their arguments.
pub mod Datagrams
use lars.Base.{
  ℕ, ◌+◌, Bool, List, [], ◌∷◌, ◌++◌, Option, none, some, if◌then◌else◌, ltb, ◌==◌, ◌||◌, not,
  length, take, drop, Result, ok, fault, out_of_bounds,
}
use lars.Reactor.ReactorBuf.{Ret, minus_one, ret}
use lars.Reactor.TcpConn.{head_bytes, read_head, bad_length, message_length_limit}
use lars.Reactor.MsgRouter.{MsgRouter, Handled, call}

pub record UdpServer (C A : Type 0) : Type 0 where
  pub read_buf : List ℕ
  pub client_addr : ℕ
  pub router : MsgRouter C A

-- What `recvfrom` answers: EINTR, EAGAIN, another error, or a datagram and its sender.
pub data Received : Type 0 where
  interrupted again broken : Received
  datagram : ℕ → List ℕ → Received

-- `recvfrom` into a buffer of `message_length_limit` bytes: what does not fit is cut off, and the
-- bytes behind the datagram stay.
abbrev pub receive : List ℕ → List ℕ → List ℕ × ℕ
receive buf bytes =
    let got = take message_length_limit bytes in (got ++ drop (length got) buf, length got)

-- A call of a callback, and the address at that time, where its answers go.
pub record Delivered (C A : Type 0) : Type 0 where
  pub to : ℕ
  pub handled : Handled C A

module _ {C A : Type 0} where
  -- The check of the head, and the call of the router. A buffer of less than a head is none.
  dispatch : ℕ → UdpServer C A → Option (Handled C A)
  dispatch pkg_len u = elim (read_head u.read_buf) [
    | none ↦ none
    | some head ↦
        if bad_length head.1 || not (head.1 + 8 == pkg_len)
        then none
        else call head.0 (take head.1 (drop 8 u.read_buf)) u.router
  ]

  abbrev pub deliver : ℕ → Option (Handled C A) → List (Delivered C A)
  deliver to none = []
  deliver to (some h) = record { to = to; handled = h } ∷ []

  -- `do_read`: the calls, in order, and the state. The list is what `recvfrom` answers in turn.
  unfoldable pub do_read : List Received → UdpServer C A → List (Delivered C A) × UdpServer C A
  unfolding dispatch
  do_read [] u = ([], u)
  do_read (interrupted ∷ rs) u = do_read rs u
  do_read (again ∷ rs) u = ([], u)
  do_read (broken ∷ rs) u = ([], u)
  do_read (datagram from bytes ∷ rs) u =
      let got = receive u.read_buf bytes in
      let u' = record u { read_buf = got.0; client_addr = from } in
      let rest = do_read rs u' in (deliver u'.client_addr (dispatch got.1 u') ++ rest.0, rest.1)

-- `send_message`, with what `sendto` answers, `none` for an error: the datagram that is written.
-- `_write_buf` has `message_length_limit` bytes, head and body together.
unfoldable pub send_message : Option ℕ → List ℕ → ℕ → Result (Ret × List ℕ)
send_message sent body msgid =
    if ltb message_length_limit (length body)
    then ok (minus_one, [])
    else if ltb message_length_limit (8 + length body)
    then fault out_of_bounds
    else elim sent [
      | none ↦ ok (minus_one, [])
      | some n ↦ ok (ret n, head_bytes msgid (length body) ++ body)
    ]
