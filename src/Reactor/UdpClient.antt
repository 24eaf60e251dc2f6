-- ===== src/Reactor/UdpClient.antt =====
-- udp_client (lars_reactor/src/udp_client.cpp). `C` and `A` are the callbacks and their arguments.
pub mod SameCalls
use lars.Base.{
  ℕ, ◌+◌, ◌==◌, ◌||◌, not, List, [], ◌∷◌, ◌++◌, Option, none, some, if◌then◌else◌, ltb, length,
  take, drop, Result, ok, fault, out_of_bounds,
}
use lars.Reactor.ReactorBuf.{Ret, minus_one, ret}
use lars.Reactor.TcpConn.{head_bytes, read_head, bad_length, message_length_limit}
use lars.Reactor.MsgRouter.{MsgRouter, Handled, call}
use lars.Reactor.Udp.{Received, interrupted, again, broken, datagram, receive}

pub record UdpClient (C A : Type 0) : Type 0 where
  pub read_buf : List ℕ
  pub router : MsgRouter C A

abbrev pub handled_list : {C A : Type 0} → Option (Handled C A) → List (Handled C A)
handled_list none = []
handled_list (some h) = h ∷ []

module _ {C A : Type 0} where
  -- The check of the head, and the call of the router.
  dispatch : ℕ → UdpClient C A → Option (Handled C A)
  dispatch pkg_len u = elim (read_head u.read_buf) [
    | none ↦ none
    | some head ↦
        if bad_length head.1 || not (head.1 + 8 == pkg_len)
        then none
        else call head.0 (take head.1 (drop 8 u.read_buf)) u.router
  ]

  -- `do_read`: the calls, in order, and the state. No sender is asked for.
  unfoldable pub do_read : List Received → UdpClient C A → List (Handled C A) × UdpClient C A
  unfolding dispatch
  do_read [] u = ([], u)
  do_read (interrupted ∷ rs) u = do_read rs u
  do_read (again ∷ rs) u = ([], u)
  do_read (broken ∷ rs) u = ([], u)
  do_read (datagram from bytes ∷ rs) u =
      let got = receive u.read_buf bytes in
      let u' = record u { read_buf = got.0 } in
      let rest = do_read rs u' in (handled_list (dispatch got.1 u') ++ rest.0, rest.1)

-- `send_message`, with what `sendto` answers, `none` for an error: the datagram that is written.
unfoldable pub send_message : Option ℕ → List ℕ → ℕ → Result (Ret × List ℕ)
send_message sent body msgid =
    if ltb message_length_limit (length body)
    then ok (minus_one, [])
    else if ltb message_length_limit (8 + length body)
    then fault out_of_bounds
    else elim sent [
      | none ↦ ok (minus_one, [])
      | some n ↦ ok (ret n, head_bytes msgid (length body) ++ body)
    ]
