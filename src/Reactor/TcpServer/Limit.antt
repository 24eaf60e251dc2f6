-- ===== src/Reactor/TcpServer/Limit.antt =====
-- What the limit on connections limits.
use lars.Base.{
  ℕ, ◌+◌, ◌^◌, ◌≤◌, ◌<◌, ◌≡◌, refl, false, List, [], ◌∷◌, ◌++◌, none, ltb, Result, ok, ◌>>=◌, arith,
  IfOk, Bool-cases, inl, inr,
}
use lars.Reactor.ThreadPool.{ThreadPool}
use lars.Reactor.TcpServer.{
  TcpServer, increase_conn, at_limit, Accepted, interrupted, again, too_many_files, broken,
  accepted, place_conn, do_accept,
}

place_conn-none :
    (connfd : ℕ) (s : TcpServer)
    → s.thread_pool ≡ none
    → place_conn connfd s ≡ increase_conn connfd s
unfolding place_conn
place_conn-none connfd s alone = simp (alone, place_conn)

-- One connection more at most, and no more than the limit.
abbrev pub Limited : TcpServer → TcpServer → Type 0
Limited s s' =
    (s'.curr_conns ≤ s.max_conns)
    × (s'.max_conns ≡ s.max_conns)
    × (s'.thread_pool ≡ none)
    × (s.curr_conns ≤ s'.curr_conns)
    × (s'.curr_conns ≤ s.curr_conns + 1)

increase_conn-Limited :
    (connfd : ℕ) (s : TcpServer)
    → s.thread_pool ≡ none
    → s.curr_conns ≤ s.max_conns
    → s.max_conns < 2 ^ 31
    → at_limit s ≡ false
    → IfOk (Limited s) (increase_conn connfd s)
unfolding increase_conn
increase_conn-Limited connfd s alone below small room = elim (Bool-cases (ltb connfd s.size)) [
  | inl fits ↦ rw (fits, increase_conn) (ground arith, refl, alone, ground arith, ground arith)
  | inr out ↦ rw (out, increase_conn) tt
]

-- Without threads: if the count is no more than the limit, then however `accept` answers, `do_accept`
-- ends with a count that is no more than the limit and one more than before at most.
pub do_accept-Limited :
    (rs : List Accepted) (s : TcpServer)
    → s.thread_pool ≡ none
    → s.curr_conns ≤ s.max_conns
    → s.max_conns < 2 ^ 31
    → IfOk (Limited s) (do_accept rs s)
unfolding do_accept
do_accept-Limited [] s alone below small = (below, refl, alone, omega arith, omega arith)
do_accept-Limited (interrupted ∷ rs) s alone below small = do_accept-Limited rs s alone below small
do_accept-Limited (too_many_files ∷ rs) s alone below small =
    do_accept-Limited rs s alone below small
do_accept-Limited (again ∷ rs) s alone below small = (below, refl, alone, omega arith, omega arith)
do_accept-Limited (broken ∷ rs) s alone below small = tt
do_accept-Limited (accepted connfd ∷ rs) s alone below small = elim (Bool-cases (at_limit s)) [
  | inl full ↦
      rw full
        (do_accept-Limited rs (record s { closed = s.closed ++ connfd ∷ [] }) alone below small)
  | inr room ↦
      rw (room, place_conn-none connfd s alone)
        (increase_conn-Limited connfd s alone below small room)
]

-- Several connections accepted in turn, with no thread running in between.
abbrev pub accept_all : List ℕ → TcpServer → Result TcpServer
accept_all [] s = ok s
accept_all (fd ∷ fds) s = do_accept (accepted fd ∷ []) s >>= accept_all fds

abbrev pub AllBelow : ℕ → List ℕ → Type 0
AllBelow n [] = Unit {0}
AllBelow n (fd ∷ fds) = (fd < n) × AllBelow n fds
