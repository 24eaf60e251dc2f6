-- ===== src/Reactor/NetTests.antt =====
-- The router, UDP and the TCP client on small inputs.
use lars.Base.{
  ℕ, ◌≤◌, ◌<◌, ◌≡◌, refl, true, false, not, ◌&&◌, is_empty, List, [], ◌∷◌, none, some, ◌⊎◌, ok,
  fault, exits, out_of_bounds, take, arith,
}
use lars.Base.Dict.{lookup}
use lars.Reactor.BufPool.{new_buf_pool}
use lars.Reactor.BufPool.Classes.{new_buf_pool-IsPool}
use lars.Reactor.ReactorBuf.{ReactorBuf, wrote, ret, minus_one, contents}
use lars.Reactor.TcpConn.{Message, TcpConn}
use lars.Reactor.TcpConn as conn
use lars.Reactor.TcpConn.Writing.{do_write_lem}
use lars.Reactor.ReactorBuf.Append.{IsReady}
use lars.Reactor.EventLoop.{new_event_loop, fire, calls}
use lars.Reactor.MsgRouter.{new_msg_router, call}
use lars.Reactor.MsgRouter.Registered.{register_all, first_of, handled_by, call-register_all}
use lars.Reactor.Udp.{UdpServer, Received, interrupted, again, datagram, do_read, send_message}
use lars.Reactor.Udp.Datagrams.{frame, delivered, do_read-delivered, send_message-frame}
use lars.Reactor.TcpClient.{
  TcpClient, drain, connection_succ, read_callback, write_callback, succ_callback, epollin,
  epollout, output_of,
}
use lars.Reactor.TcpClient as client
use lars.Reactor.TcpClient.Draining.{Drained, drain-Drained}
use lars.Reactor.TcpClient.Linking.{connection_succ-sends, sending, Linked}
use lars.Reactor.TcpClient.Connecting.{connecting, Deaf, send_message-connecting}
use lars.Reactor.ThreadPool.{ThreadPool, new_conn}
use lars.Reactor.TcpServer.{TcpServer}

abbrev registrations : List (ℕ × ℕ × ℕ)
registrations = (1, 50, 60) ∷ (2, 51, 61) ∷ (1, 52, 62) ∷ []

call-register_all_example :
    call 1 (9 ∷ []) (register_all registrations new_msg_router)
    ≡ handled_by 1 (9 ∷ []) (first_of 1 registrations)
call-register_all_example = call-register_all 1 (9 ∷ []) registrations

abbrev udp : UdpServer ℕ ℕ
udp = record {
  read_buf = 7 ∷ 7 ∷ [];
  client_addr = 0;
  router = register_all registrations new_msg_router;
}

-- A datagram of one message, a short one, and the end.
abbrev datagrams : List Received
datagrams =
    interrupted
    ∷ datagram 4 (1 ∷ 0 ∷ 0 ∷ 0 ∷ 1 ∷ 0 ∷ 0 ∷ 0 ∷ 5 ∷ [])
    ∷ datagram 5 (1 ∷ 0 ∷ [])
    ∷ again
    ∷ []

do_read-delivered_example : (do_read datagrams udp).0 ≡ delivered udp.router datagrams
do_read-delivered_example = do_read-delivered datagrams udp

send_message-frame_example :
    (65527 < 1 → send_message (some 9) (5 ∷ []) 1 ≡ ok (minus_one, []))
    × (65519 < 1 → 1 ≤ 65527 → send_message (some 9) (5 ∷ []) 1 ≡ fault out_of_bounds)
    × (1 ≤ 65519 → send_message none (5 ∷ []) 1 ≡ ok (minus_one, []))
    × (1 ≤ 65519
        → (bytes : List ℕ) × (send_message (some 9) (5 ∷ []) 1 ≡ ok (ret 9, bytes))
          × (frame (take 65527 bytes) ≡ some (1, 5 ∷ [])))
send_message-frame_example = send_message-frame (some 9) 9 1 (5 ∷ []) (omega arith)

abbrev waiting_bytes : ReactorBuf
waiting_bytes = record {
  buf = some (record { capacity = 4096; head = 0; bytes = 1 ∷ 2 ∷ 3 ∷ [] });
  pool = new_buf_pool;
}

drain-Drained_example : Drained (wrote 2 ∷ []) waiting_bytes (drain (wrote 2 ∷ []) waiting_bytes)
drain-Drained_example =
    drain-Drained (wrote 2 ∷ []) waiting_bytes (new_buf_pool-IsPool, ((refl, ground arith), refl))
      (ground arith, tt)

abbrev one_byte : Message
one_byte = record { msgid = 1; body = 5 ∷ [] }

send_message-connecting_example :
    (fire 4 epollout false (connecting 4 new_event_loop new_buf_pool).loop
      ≡ ok (calls succ_callback))
    × (((c : TcpClient) × (client.send_message (5 ∷ []) 1 (connecting 4 new_event_loop new_buf_pool)
            ≡ ok (ret 0, c))
          × (fire 4 epollout false c.loop ≡ ok (calls write_callback))
          × Deaf 4 (connecting 4 new_event_loop new_buf_pool) (client.do_write (wrote 9 ∷ []) c))
        ⊎ (client.send_message (5 ∷ []) 1 (connecting 4 new_event_loop new_buf_pool) ≡ fault exits))
unfolding new_event_loop lookup
send_message-connecting_example =
    send_message-connecting one_byte 4 new_event_loop new_buf_pool (wrote 9 ∷ []) refl
      new_buf_pool-IsPool (omega arith) (omega arith, tt) refl

abbrev linked : TcpClient
linked = connecting 4 new_event_loop new_buf_pool

connection_succ-sends_example :
    ((d : TcpClient) × (connection_succ (some (sending one_byte)) 0 4 linked ≡ ok d)
      × Linked one_byte 4 (wrote 9 ∷ []) linked d)
    ⊎ (connection_succ (some (sending one_byte)) 0 4 linked ≡ fault exits)
connection_succ-sends_example =
    connection_succ-sends one_byte 4 linked (wrote 9 ∷ []) refl (new_buf_pool-IsPool, tt) refl
      (omega arith) (omega arith, tt) refl

abbrev limited : TcpServer
limited = record {
  conns = λ i. none;
  size = 9;
  curr_conns = 1;
  max_conns = 2;
  thread_pool = none;
  closed = [];
}

abbrev two_threads : ThreadPool
two_threads = record { index = 0; thread_cnt = 2; queues = [] ∷ [] ∷ [] }

abbrev two_busy : ThreadPool
two_busy = record {
  index = 1;
  thread_cnt = 2;
  queues = (new_conn 5 ∷ new_conn 6 ∷ new_conn 7 ∷ []) ∷ [] ∷ [];
}

abbrev writing_conn : TcpConn
writing_conn = record {
  ibuf = none;
  obuf = waiting_bytes.buf;
  pool = new_buf_pool;
  is_open = true;
  wants_write = true;
}

do_write_lem_example :
    (c : TcpConn) × (conn.do_write (wrote 2 ∷ []) writing_conn ≡ ok c)
    × IsReady (conn.output_of c)
    × (contents (conn.output_of c) ≡ 3 ∷ [])
    × (c.wants_write ≡ (true && not (is_empty (contents (conn.output_of c)))))
do_write_lem_example =
    do_write_lem (wrote 2 ∷ []) writing_conn (new_buf_pool-IsPool, ((refl, ground arith), refl))
      (ground arith, tt) refl
