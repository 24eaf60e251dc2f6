-- ===== src/Reactor/ThreadPool.antt =====
-- thread_pool and thread_queue (lars_reactor/src/thread_pool.cpp, include/thread_queue.h). A queue is
-- locked throughout `send` and `recv`, so a state is the list of the queues' contents.
pub mod Turns
use lars.Base.{
  ℕ, zero, suc, Bool, List, [], ◌∷◌, ◌++◌, Option, none, some, if◌then◌else◌, ltb, ◌==◌, Result, ok,
  fault, ◌>>=◌, exits, out_of_bounds,
}
use lars.Reactor.EventLoop.{EventLoop, add_task}

pub data TaskMsg : Type 0 where
  -- a connection that a thread is to take over, and a function to run
  new_conn : ℕ → TaskMsg
  new_task : ℕ → TaskMsg

pub record ThreadPool : Type 0 where
  pub index : ℕ
  pub thread_cnt : ℕ
  pub queues : List (List TaskMsg)

unfoldable pub empty_queues : ℕ → List (List TaskMsg)
empty_queues zero = []
empty_queues (suc n) = [] ∷ empty_queues n

unfoldable pub new_thread_pool : ℕ → Result ThreadPool
unfolding empty_queues
new_thread_pool thread_cnt =
    if thread_cnt == 0
    then fault exits
    else ok (record { index = 0; thread_cnt = thread_cnt; queues = empty_queues thread_cnt })

-- The number of the queue that is chosen: `_index` is reset where it is `_thread_cnt - 1`.
unfoldable pub get_thread : ThreadPool → Result (ℕ × ThreadPool)
get_thread p =
    let i = if suc p.index == p.thread_cnt then 0 else p.index in
    if ltb i p.thread_cnt then ok (i, record p { index = suc i }) else fault out_of_bounds

-- `thread_queue::send` to the queue with that number, and `recv`.
unfoldable pub send_at : ℕ → TaskMsg → List (List TaskMsg) → List (List TaskMsg)
send_at i task [] = []
send_at zero task (q ∷ qs) = (q ++ task ∷ []) ∷ qs
send_at (suc i) task (q ∷ qs) = q ∷ send_at i task qs

unfoldable pub recv : List TaskMsg → List TaskMsg × List TaskMsg
recv queue = (queue, [])

-- What the accepting thread does with a connection: `get_thread` and `send`.
unfoldable pub hand_over : ℕ → ThreadPool → Result ThreadPool
unfolding get_thread send_at
hand_over connfd p =
    get_thread p >>= λ o. ok (record o.1 { queues = send_at o.0 (new_conn connfd) o.1.queues })

unfoldable pub send_all : TaskMsg → List (List TaskMsg) → List (List TaskMsg)
send_all task [] = []
send_all task (q ∷ qs) = (q ++ task ∷ []) ∷ send_all task qs

unfoldable pub send_task : ℕ → ThreadPool → ThreadPool
unfolding send_all
send_task func p = record p { queues = send_all (new_task func) p.queues }

-- `deal_task`: the connections that the thread makes, and its loop with the functions to run.
unfoldable pub deal_tasks : List TaskMsg → EventLoop → List ℕ × EventLoop
unfolding add_task
deal_tasks [] s = ([], s)
deal_tasks (new_conn connfd ∷ ts) s = let o = deal_tasks ts s in (connfd ∷ o.0, o.1)
deal_tasks (new_task func ∷ ts) s = deal_tasks ts (add_task func s)

unfoldable pub deal_task : List TaskMsg → EventLoop → (List ℕ × EventLoop) × List TaskMsg
unfolding recv deal_tasks
deal_task queue s = let o = recv queue in (deal_tasks o.0 s, o.1)
