-- ===== src/Demo.antt =====
-- demo: the programs that are built on the framework.
pub mod ResourceCache
pub mod LruStore
pub mod HttpServer
