-- ===== src/Bench.antt =====
-- cmd/golinker-bench: the load generator.
pub mod Client
pub mod Compare
pub mod Limiter
pub mod Counters
