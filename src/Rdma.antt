-- ===== src/Rdma.antt =====
-- internal/rdma: the resources of the RDMA connection manager, what takes them and what frees them.
pub mod Ledger
pub mod Events
pub mod Undo
pub mod Cm
pub mod DataPath
pub mod Echo
pub mod Sink
pub mod PingPong
pub mod Listener
pub mod Dial
pub mod Release
pub mod Verbs
pub mod Completions
