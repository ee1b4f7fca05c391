-- ===== src/Net.antt =====
-- The networking layer, src/net.
pub mod Buffer
pub mod Channel
pub mod EventLoop
pub mod EventLoopThread
pub mod InetAddress
pub mod Acceptor
pub mod Poller
pub mod TcpConnection
pub mod TcpServer
