-- ===== src/Metrics.antt =====
-- src/metrics/mod.rs and src/handlers/metrics.rs: the samples of the processor, the memory, the disk
-- and the containers, and the stream of them.
pub mod Proc
pub mod Sample
pub mod Memory
pub mod Calm
pub mod Stream
pub mod Growth
