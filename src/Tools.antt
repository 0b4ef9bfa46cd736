-- ===== src/Tools.antt =====
-- protoneo/tools: what agents can ask.
pub mod GraphQuery
pub mod Registry
