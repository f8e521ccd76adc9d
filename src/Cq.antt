-- ===== src/Cq.antt =====
-- pkg/cq: the completion handlers, the poller and the pool of pollers.
pub mod Channel
pub mod Dispatch
pub mod Poller
pub mod Pool
