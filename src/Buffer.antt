-- ===== src/Buffer.antt =====
-- pkg/buffer: the pool of registered buffers, and the send and receive pools over it.
pub mod Pool
pub mod SendPool
pub mod RecvPool
