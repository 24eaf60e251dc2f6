-- ===== src/Lib.antt =====
-- Lars, a load balancer for remote calls: lars_reactor is a network library in C++, on which stand
-- lars_dns, which serves the routes of a database, lars_lb_agent, which runs on every client machine
-- and hands out hosts by their results, and lars_reporter, which stores what the agents report.
--
-- An API client asks its agent for a host of a module (modid, cmdid) and reports how the call went.
-- The agent (lars_lb_agent) keeps a load_balance for every module; it asks lars_dns for a module's
-- hosts and sends the counts of every host to lars_reporter. lars_dns reloads the routes of the
-- database and tells subscribed agents of changes. All of them talk through lars_reactor.
--
-- The files:
--   Base             what the models share: results with faults, lists, words, maps, sets.
--   Agent.Messages   base/proto/lars.proto, the messages as values.
--   Agent.HostInfo   lars_lb_agent/src/host_info.cpp, include/host_info.h.
--   Agent.LoadBalance lars_lb_agent/src/load_balance.cpp, include/load_balance.h: the choice of a
--                    host, with Report (`report`, `commit`) and Update (`update`); Valid says when a
--                    load_balance is well formed.
--   Agent.RouteLb    lars_lb_agent/src/route_lb.cpp: all modules of an agent.
--   Agent.Wiring     lars_lb_agent/src/agent_udp_server.cpp, dns_client.cpp, report_client.cpp and
--                    init_lb_agent of main_server.cpp: the callbacks on the three route_lbs;
--                    Startup is the order in which main starts servers and makes queues.
--   Dns.Route        lars_dns/src/dns_route.cpp: the routes in memory and a round of the reloading.
--   Dns.Subscribe    lars_dns/src/subscribe.cpp: the subscriptions, and the pushing of changes.
--   Dns.Service      lars_dns/src/dns_service.cpp: the request handler and the connection's hooks.
--   Dns.System       the two of them with the thread of dns_route.cpp and the pushing, as steps;
--                    Orderly names the conditions on a history that the results on it have.
--   Reactor.BufPool  lars_reactor/src/io_buf.cpp, buf_pool.cpp.
--   Reactor.ReactorBuf lars_reactor/src/reactor_buf.cpp: the buffers of a connection.
--   Reactor.TcpConn  lars_reactor/src/tcp_conn.cpp and the framing of include/message.h.
--   Reactor.Channel  two tcp_conns with the network between them.
--   Reactor.MsgRouter class msg_router of lars_reactor/include/message.h.
--   Reactor.Udp      lars_reactor/src/udp_server.cpp.
--   Reactor.UdpClient lars_reactor/src/udp_client.cpp.
--   Reactor.TcpClient lars_reactor/src/tcp_client.cpp, on the model of the event loop.
--   Reactor.TcpServer lars_reactor/src/tcp_server.cpp: the table of connections and `do_accept`.
--   Reactor.EventLoop lars_reactor/src/event_loop.cpp, with a turn of `event_process` in Turn.
--   Reactor.ThreadPool lars_reactor/src/thread_pool.cpp, include/thread_queue.h.
--   Reactor.ConfigFile lars_reactor/src/config_file.cpp: the loading of an ini file and its
--                    getters.
--   Api              api/cpp/lars_api/lars_api.cpp: what a program calls.
--   Reporter         lars_reporter/src/reporter_service.cpp, store_thread.cpp, store_report.cpp.
--   Whole            the programs together: from the database to a caller, and from a caller's
--                    report to the database.
--   The modules Tests, NetTests, LoopTests and SystemTests run the definitions and the theorems on
--   small inputs.
--
-- Conventions: an `int` or a `uint32_t` is its 32-bit pattern, a `uint64_t` its 64-bit one, and sums
-- that the source lets wrap are written with the remainder. A call that can end in undefined
-- behaviour, a failed assertion or `exit` returns a `Result`, whose fault says which. Pointers to
-- `host_info` are numbers of cells, and `delete` empties a cell. A method that holds its lock from its
-- first access to its last is one step. Readings of the clock, answers of system calls and of the
-- database are arguments. Containers with an unspecified order (hash_map, hash_set) are lists in the
-- order of insertion.
--
-- Fuel: only `process`, the loop of `do_read`, has fuel; `dispatch` gives it one more than the number
-- of waiting bytes, and every turn takes eight bytes at least (Reactor.TcpConn.Fuel).
--
-- How the parts meet: Api and Agent.Wiring choose a route_lb by the same `shard`, and
-- Api.Matching puts the agent's callback behind the client's call. Agent.Wiring.FirstRequest follows a
-- module from the first request over the DNS service's answer to the first host, and
-- Agent.Wiring.Placement takes histories of requests and answers. Dns.System is a step relation of the
-- threads of lars_dns; Whole.Routes puts lars_dns behind the agent, Whole.Reports the reporter.
-- Reactor.TcpClient and Reactor.TcpConn use the buffers of Reactor.ReactorBuf, Reactor.TcpClient the
-- loop of Reactor.EventLoop, and Reactor.TcpServer the queues of Reactor.ThreadPool. Where threads meet
-- without a lock, the order of their steps is explicit: Dns.System, Dns.Subscribe.Lost, Reporter.Race,
-- Reactor.TcpServer.Limit.
--
-- Not modelled: protobuf and MySQL (libraries), the queries as text, sockets and threads as such,
-- and `main` functions, but for the order in which that of the agent starts
-- its parts (Agent.Wiring.Startup).
pub mod Base
pub mod Agent
pub mod Dns
pub mod Reactor
pub mod Api
pub mod Reporter
pub mod Whole
