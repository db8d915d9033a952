-- ===== src/Example.antt =====
-- example/: the latency benchmarks and the programs beside them.
pub mod Stats
pub mod Payload
pub mod Rounds
pub mod Options
pub mod Echo
pub mod Programs
pub mod Host
mod Tests
