-- ===== src/Reactor/TcpClient.antt =====
-- tcp_client (lars_reactor/src/tcp_client.cpp). A callback is a number, as in event_loop; the pool is
-- the one that all buffers share. What the system calls answer is an argument.
pub mod Draining
pub mod Connecting
pub mod Linking
use lars.Base.{
  ℕ, suc, ◌+◌, Bool, true, false, List, [], ◌∷◌, ◌++◌, Option, none, some, if◌then◌else◌, ◌==◌,
  length, is_empty, Result, ok, fault, exits, ◌>>=◌,
}
use lars.Reactor.BufPool.{IoBuf, BufPool}
use lars.Reactor.ReactorBuf.{
  ReactorBuf, Ret, minus_one, ret, Written, contents, pop, adjust, read_data, send_data, write2fd,
}
use lars.Reactor.TcpConn.{Message, head_bytes, process}
use lars.Reactor.EventLoop.{EventLoop, Mask, add_io_event, del_io_event, del_io_mask}

abbrev pub read_callback : ℕ
read_callback = 1

abbrev pub write_callback : ℕ
write_callback = 2

abbrev pub succ_callback : ℕ
succ_callback = 3

abbrev pub epollin : Mask
epollin = record { epollin = true; epollout = false }

abbrev pub epollout : Mask
epollout = record { epollin = false; epollout = true }

-- `_sockfd` is `none` for -1. `closed` are the closes so far, `started` counts the calls of the hook
-- for a new connection.
pub record TcpClient : Type 0 where
  pub sockfd : Option ℕ
  pub loop : EventLoop
  pub ibuf : Option IoBuf
  pub obuf : Option IoBuf
  pub pool : BufPool
  pub closed : List ℕ
  pub started : ℕ

abbrev pub input_of : TcpClient → ReactorBuf
input_of c = record { buf = c.ibuf; pool = c.pool }

abbrev pub output_of : TcpClient → ReactorBuf
output_of c = record { buf = c.obuf; pool = c.pool }

abbrev pub with_input : ReactorBuf → TcpClient → TcpClient
with_input s c = record c { ibuf = s.buf; pool = s.pool }

abbrev pub with_output : ReactorBuf → TcpClient → TcpClient
with_output s c = record c { obuf = s.buf; pool = s.pool }

-- `add_io_event(_sockfd, …)`, which epoll accepts; -1 is never a socket of the loop.
abbrev pub watch : ℕ → Mask → TcpClient → TcpClient
watch proc mask c = elim c.sockfd [
  | none ↦ c
  | some fd ↦ record c { loop = (add_io_event true fd proc mask c.loop).1 }
]

-- `_conn_start_cb` with its argument, where it is not NULL. It works on the client.
abbrev pub Hook : Type 0
Hook = Option (TcpClient → Result TcpClient)

abbrev pub run_hook : Hook → TcpClient → Result TcpClient
run_hook none c = ok c
run_hook (some cb) c = cb (record c { started = c.started + 1 })

-- `connection_succ`, with the error that the socket has, 0 for none.
unfoldable pub connection_succ : Hook → ℕ → ℕ → TcpClient → Result TcpClient
connection_succ conn_start_cb result fd c =
    let c' = record c { loop = (del_io_event fd c.loop).1 } in
    if result == 0
    then (run_hook conn_start_cb c' >>= λ d.
        let d' = record d { loop = (add_io_event true fd read_callback epollin d.loop).1 } in
        ok (
          if is_empty (contents (output_of d'))
          then d'
          else record d' { loop = (add_io_event true fd write_callback epollout d'.loop).1 }))
    else ok c'

-- What `connect` answers.
pub data Connected : Type 0 where
  at_once : ℕ → Connected
  in_progress refused : Connected

-- `do_connect`, with the socket that is made, if one is.
unfoldable pub do_connect : Hook → Option ℕ → Connected → TcpClient → Result TcpClient
unfolding connection_succ
do_connect conn_start_cb none answer c = fault exits
do_connect conn_start_cb (some fd) answer c =
    let c' = record c {
      sockfd = some fd;
      closed = elim c.sockfd [ none ↦ c.closed | some old ↦ c.closed ++ old ∷ [] ];
    } in
    elim answer [
      | at_once result ↦ connection_succ conn_start_cb result fd c'
      | in_progress ↦ ok (watch succ_callback epollout c')
      | refused ↦ fault exits
    ]

-- The constructor, on the loop and the pool that are there; no hook is set yet.
unfoldable pub new_tcp_client : EventLoop → BufPool → Option ℕ → Connected → Result TcpClient
unfolding do_connect
new_tcp_client loop pool fd answer = do_connect none fd answer (record {
  sockfd = none;
  loop = loop;
  ibuf = none;
  obuf = none;
  pool = pool;
  closed = [];
  started = 0;
})

-- `clean_conn`: the buffers stay, and so does the number in `_sockfd`.
unfoldable pub clean_conn : TcpClient → TcpClient
clean_conn c = elim c.sockfd [
  | none ↦ c
  | some fd ↦ record c { loop = (del_io_event fd c.loop).1; closed = c.closed ++ fd ∷ [] }
]

unfoldable pub send_message : List ℕ → ℕ → TcpClient → Result (Ret × TcpClient)
unfolding send_data pop head_bytes
send_message body msgid c =
    let active = is_empty (contents (output_of c)) in
    send_data (head_bytes msgid (length body)) (output_of c) >>= λ o. elim o.0 [
      | minus_one ↦ ok (minus_one, with_output o.1 c)
      | ret m ↦ send_data body o.1 >>= λ o'. elim o'.0 [
        | minus_one ↦ pop 8 o'.1 >>= λ s. ok (minus_one, with_output s c)
        | ret n ↦
            let c' = with_output o'.1 c in
            ok (ret 0, (if active then watch write_callback epollout c' else c'))
      ]
    ]

-- The loop of `do_write`: whether `write` failed, and what is left. The list is what `write` answers
-- in turn, and its end an EAGAIN.
unfoldable pub drain : List Written → ReactorBuf → Result (Bool × ReactorBuf)
unfolding write2fd
drain [] s = ok (false, s)
drain (w ∷ ws) s =
    if is_empty (contents s)
    then ok (false, s)
    else (write2fd w s >>= λ o. elim o.0 [
      | minus_one ↦ ok (true, o.1)
      | ret n ↦ if n == 0 then ok (false, o.1) else drain ws o.1
    ])

-- `del_io_event(_sockfd, EPOLLOUT)`.
unfoldable pub unwatch : TcpClient → TcpClient
unwatch c = elim c.sockfd [
  | none ↦ c
  | some fd ↦ record c { loop = (del_io_mask fd epollout c.loop).1 }
]

unfoldable pub do_write : List Written → TcpClient → Result TcpClient
unfolding drain clean_conn unwatch
do_write ws c = drain ws (output_of c) >>= λ o.
    let c' = with_output o.1 c in
    if o.0 then ok (clean_conn c') else if is_empty (contents o.1) then ok (unwatch c') else ok c'

-- `do_read`, with the messages that the router is called for.
unfoldable pub do_read : Option ℕ → Option (List ℕ) → TcpClient → Result (List Message × TcpClient)
unfolding read_data clean_conn process adjust
do_read ready received c = read_data ready received (input_of c) >>= λ o.
    let c' = with_input o.1 c in
    elim o.0 [
      | minus_one ↦ ok ([], clean_conn c')
      | ret n ↦
          let c'' = if n == 0 then clean_conn c' else c' in
          process (suc (length (contents (input_of c'')))) (input_of c'') >>= λ p.
          let d = if p.1 then clean_conn c'' else c'' in ok (p.0, with_input (adjust p.2) d)
    ]
