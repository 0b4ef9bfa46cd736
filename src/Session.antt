-- ===== src/Session.antt =====
-- protoneo/deliberation/session.py
pub mod Context
pub mod Manager
