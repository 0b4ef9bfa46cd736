-- ===== src/Api.antt =====
-- protoneo/api: the control of a running pipeline, and the events of a session.
pub mod Control
pub mod Events
pub mod Tasks
mod Tests
