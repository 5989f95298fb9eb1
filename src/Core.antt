-- ===== src/Core.antt =====
-- core: the network library (buffer, cache, connection, sockets, event loops, threads).
pub mod Result
pub mod Buffer
pub mod Connection
pub mod Cache
pub mod NetAddress
pub mod Socket
pub mod ThreadPool
pub mod Poller
pub mod Looper
pub mod DistributionAgent
pub mod Acceptor
pub mod Server
