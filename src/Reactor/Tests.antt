-- ===== src/Reactor/Tests.antt =====
-- The reactor on small inputs.
use lars.Base.{
  ℕ, zero, suc, ◌≡◌, refl, true, false, ◌&&◌, List, [], ◌∷◌, none, some, ◌⊎◌, ok, fault, arith,
  exits, length, if◌then◌else◌,
}
use lars.Reactor.BufPool.{new_buf_pool}
use lars.Reactor.BufPool.Classes.{new_buf_pool-IsPool}
use lars.Reactor.ReactorBuf.{ReactorBuf, contents}
use lars.Reactor.ReactorBuf.Append.{IsReady}
use lars.Reactor.TcpConn.{process, Message, TcpConn, head_bytes, read_head, with_input, int_bytes}
use lars.Reactor.TcpConn.Framing.{AllMessages}
use lars.Reactor.TcpConn.Fuel.{process-fuel}
use lars.Reactor.ReactorBuf.{wrote, again}
use lars.Reactor.Channel.{Action, sends, writes, transmit, transmit_lem}
use lars.Reactor.TcpConn.Segments.{feed, feed_lem}
use lars.Reactor.ConfigFile.{
  Loading, load_line, get_string, same_text, trim, is_section, split_line,
}
use lars.Reactor.ConfigFile.{get_bool, is_true_text}
use lars.Reactor.ConfigFile.Getters.{get_bool_lem}
use lars.Reactor.ConfigFile.Lookup.{get_string-load_line}
use lars.Reactor.ThreadPool.{ThreadPool}
use lars.Reactor.ThreadPool.Turns.{hand_all, queue_at, hand_all_lem}

abbrev new_tcp_conn : TcpConn
new_tcp_conn = record {
  ibuf = none;
  obuf = none;
  pool = new_buf_pool;
  is_open = true;
  wants_write = false;
}

abbrev small_message : Message
small_message = record { msgid = 1; body = 5 ∷ [] }

small_AllMessages : AllMessages (small_message ∷ [])
small_AllMessages = ((ground arith, ground arith, ground arith), tt)

abbrev small_bytes : List ℕ
small_bytes = 1 ∷ 0 ∷ 0 ∷ 0 ∷ 1 ∷ 0 ∷ 0 ∷ 0 ∷ 5 ∷ []

abbrev message_buf : ReactorBuf
message_buf = record {
  buf = some (record { capacity = 4096; head = 0; bytes = small_bytes });
  pool = new_buf_pool;
}

process-fuel_example : process 11 message_buf ≡ process 10 message_buf
process-fuel_example = process-fuel 10 message_buf (ground arith)

abbrev segments : List (List ℕ)
segments = (1 ∷ 0 ∷ 0 ∷ []) ∷ (0 ∷ 1 ∷ 0 ∷ 0 ∷ 0 ∷ 5 ∷ []) ∷ []

feed_lem_example :
    ((s : ReactorBuf) × (feed segments new_tcp_conn
        ≡ ok (small_message ∷ [], with_input s new_tcp_conn))
      × IsReady s
      × (contents s ≡ []))
    ⊎ (feed segments new_tcp_conn ≡ fault exits)
unfolding head_bytes int_bytes read_head
feed_lem_example =
    feed_lem segments (small_message ∷ []) new_tcp_conn (new_buf_pool-IsPool, tt) small_AllMessages
      (refl, (refl, tt)) refl refl (ground arith)

abbrev three_threads : ThreadPool
three_threads = record { index = 0; thread_cnt = 3; queues = [] ∷ [] ∷ [] ∷ [] }

hand_all_lem_example :
    (p' : ThreadPool) × (hand_all (5 ∷ 6 ∷ 7 ∷ 8 ∷ []) three_threads ≡ ok p')
    × (queue_at 2 p'.queues ≡ queue_at 2 three_threads.queues)
hand_all_lem_example =
    hand_all_lem (5 ∷ 6 ∷ 7 ∷ 8 ∷ []) 2 three_threads refl (ground arith) (ground arith)

zeros : ℕ → List ℕ
zeros zero = []
zeros (suc n) = 0 ∷ zeros n

length-zeros : (n : ℕ) → length (zeros n) ≡ n
unfolding zeros
length-zeros zero = refl
length-zeros (suc n) = ground (arith, length-zeros n)

-- The line "ip = 10", and "db" as the section's name.
abbrev ip_line : List ℕ
ip_line = 105 ∷ 112 ∷ 32 ∷ 61 ∷ 32 ∷ 49 ∷ 48 ∷ []

abbrev in_section : Loading
in_section = record { sections = []; current = some (100 ∷ 98 ∷ []) }

get_string-load_line_example :
    (s' : Loading) × (load_line ip_line in_section ≡ ok s')
    × (s'.current ≡ some (100 ∷ 98 ∷ []))
    × ((section other default_value : List ℕ)
        → get_string section other default_value s' ≡ (
            if same_text (100 ∷ 98 ∷ []) section && same_text (trim (105 ∷ 112 ∷ 32 ∷ [])) other
            then trim (32 ∷ 49 ∷ 48 ∷ [])
            else get_string section other default_value in_section))
unfolding is_section split_line trim
get_string-load_line_example =
    get_string-load_line ip_line (100 ∷ 98 ∷ []) (105 ∷ 112 ∷ 32 ∷ []) (32 ∷ 49 ∷ 48 ∷ [])
      in_section refl refl refl refl refl

-- The section "a" with the entry "b" = "x, y,".
abbrev list_config : Loading
list_config = record {
  sections = ((97 ∷ []), ((98 ∷ []), 120 ∷ 44 ∷ 32 ∷ 121 ∷ 44 ∷ []) ∷ []) ∷ [];
  current = none;
}

get_bool_lem_example :
    (get_bool (97 ∷ []) (98 ∷ []) true list_config ≡ true)
    × (get_bool (97 ∷ []) (98 ∷ []) false list_config
        ≡ is_true_text (get_string (97 ∷ []) (98 ∷ []) [] list_config))
get_bool_lem_example = get_bool_lem (97 ∷ []) (98 ∷ []) list_config

-- The second message is sent while bytes of the first one wait.
abbrev two_sends : List Action
two_sends =
    sends small_message
    ∷ writes (wrote 4 ∷ again ∷ [])
    ∷ sends small_message
    ∷ writes (wrote 6 ∷ wrote 8 ∷ [])
    ∷ []

transmit_lem_example :
    ((s : ReactorBuf) × (transmit two_sends (2 ∷ 5 ∷ []) new_tcp_conn new_tcp_conn
        ≡ ok (small_message ∷ small_message ∷ [], with_input s new_tcp_conn))
      × IsReady s
      × (contents s ≡ []))
    ⊎ (transmit two_sends (2 ∷ 5 ∷ []) new_tcp_conn new_tcp_conn ≡ fault exits)
unfolding head_bytes int_bytes
transmit_lem_example =
    transmit_lem two_sends (2 ∷ 5 ∷ []) new_tcp_conn new_tcp_conn (new_buf_pool-IsPool, tt) refl
      (new_buf_pool-IsPool, tt) refl
      ((ground arith, ground arith, ground arith), ((ground arith, ground arith, ground arith), tt))
      ((ground arith, tt), refl, ((ground arith, (ground arith, tt)), refl, refl)) (ground arith)
