-- ===== src/Pool.antt =====
-- src/pool/mod.rs: the pools of I/O buffers and of sockets.
pub mod BufferPool
pub mod SocketPool
