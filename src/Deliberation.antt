-- ===== src/Deliberation.antt =====
-- protoneo/deliberation: phases of agent turns with retries, validated outputs and checkpoints.
pub mod Types
pub mod Exec
pub mod Attempts
pub mod Commit
pub mod Sequential
pub mod RoundRobin
pub mod Parallel
pub mod Config
pub mod Visible
pub mod Job
pub mod Engine
mod Tests
