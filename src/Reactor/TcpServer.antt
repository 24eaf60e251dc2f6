-- ===== src/Reactor/TcpServer.antt =====
-- tcp_server (lars_reactor/src/tcp_server.cpp): the table of connections, its count, and `do_accept`.
-- A connection object is named by its fd. Each of the three calls on the table holds the mutex.
pub mod Limit
use lars.Base.{
  ℕ, ◌+◌, ◌-◌, ◌*◌, ◌%◌, ◌^◌, Bool, List, [], ◌∷◌, ◌++◌, Option, none, some, if◌then◌else◌, ltb,
  leb, ◌==◌, Result, ok, fault, ◌>>=◌, exits, out_of_bounds,
}
use lars.Base.Words.{inc32}
use lars.Reactor.ThreadPool.{ThreadPool, new_thread_pool, hand_over}

-- `conns` has `size` entries, which lars_dns reads for the connections it has. `closed` are the sockets closed by the
-- accepting thread.
pub record TcpServer : Type 0 where
  pub conns : ℕ → Option ℕ
  pub size : ℕ
  pub curr_conns : ℕ
  pub max_conns : ℕ
  pub thread_pool : Option ThreadPool
  pub closed : List ℕ

-- The last steps of the constructor, with the two numbers of the configuration, which are not
-- negative, what the memory of the table holds, and what that of `_thread_pool` holds: without threads
-- the constructor does not set it.
unfoldable pub new_tcp_server : ℕ → ℕ → (ℕ → Option ℕ) → Option ThreadPool → Result TcpServer
new_tcp_server thread_cnt max_conns memory unset =
    let s : Option ThreadPool → TcpServer = λ p. record {
      conns = memory;
      size = max_conns + 5 + 2 * thread_cnt;
      curr_conns = 0;
      max_conns = max_conns;
      thread_pool = p;
      closed = [];
    } in
    if thread_cnt == 0 then ok (s unset) else (new_thread_pool thread_cnt >>= λ p. ok (s (some p)))

abbrev pub set_conn : ℕ → Option ℕ → (ℕ → Option ℕ) → ℕ → Option ℕ
set_conn fd conn conns i = if fd == i then conn else conns i

unfoldable pub increase_conn : ℕ → TcpServer → Result TcpServer
increase_conn connfd s =
    if ltb connfd s.size
    then ok (record s {
      conns = set_conn connfd (some connfd) s.conns;
      curr_conns = inc32 s.curr_conns;
    })
    else fault out_of_bounds

unfoldable pub decrease_conn : ℕ → TcpServer → Result TcpServer
decrease_conn connfd s =
    if ltb connfd s.size
    then ok (record s {
      conns = set_conn connfd none s.conns;
      curr_conns = (s.curr_conns + (2 ^ 32 - 1)) % 2 ^ 32;
    })
    else fault out_of_bounds

-- `cur_conns >= _max_conns`, of two `int`s.
abbrev pub at_limit : TcpServer → Bool
at_limit s = leb ((s.max_conns + 2 ^ 31) % 2 ^ 32) ((s.curr_conns + 2 ^ 31) % 2 ^ 32)

-- What `accept` answers.
pub data Accepted : Type 0 where
  interrupted again too_many_files broken : Accepted
  accepted : ℕ → Accepted

-- A connection below the limit goes to a thread, or is made at once.
unfoldable pub place_conn : ℕ → TcpServer → Result TcpServer
unfolding increase_conn
place_conn connfd s = elim s.thread_pool [
  | none ↦ increase_conn connfd s
  | some p ↦ hand_over connfd p >>= λ p'. ok (record s { thread_pool = some p' })
]

-- `do_accept`; the list is what `accept` answers in turn.
unfoldable pub do_accept : List Accepted → TcpServer → Result TcpServer
unfolding place_conn
do_accept [] s = ok s
do_accept (interrupted ∷ rs) s = do_accept rs s
do_accept (too_many_files ∷ rs) s = do_accept rs s
do_accept (again ∷ rs) s = ok s
do_accept (broken ∷ rs) s = fault exits
do_accept (accepted connfd ∷ rs) s =
    let next = do_accept rs (record s { closed = s.closed ++ connfd ∷ [] }) in
    if at_limit s then next else place_conn connfd s

-- The connections that a thread makes of its tasks.
unfoldable pub make_conns : List ℕ → TcpServer → Result TcpServer
unfolding increase_conn
make_conns [] s = ok s
make_conns (connfd ∷ fds) s = increase_conn connfd s >>= λ s'. make_conns fds s'
