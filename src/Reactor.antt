-- ===== src/Reactor.antt =====
-- lars_reactor: buffers, connections, threads and the event loop.
pub mod BufPool
pub mod ReactorBuf
pub mod TcpConn
pub mod MsgRouter
pub mod Udp
pub mod UdpClient
pub mod TcpClient
pub mod Channel
pub mod TcpServer
pub mod EventLoop
pub mod ThreadPool
mod Tests
mod NetTests
mod LoopTests
pub mod ConfigFile
