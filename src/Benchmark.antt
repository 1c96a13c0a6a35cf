-- ===== src/Benchmark.antt =====
-- The load generator of benchmark/main.go and benchmark/handlers.go.
pub mod Ring
pub mod Metrics
pub mod Tool
pub mod Pool
pub mod Locks
pub mod Panel
