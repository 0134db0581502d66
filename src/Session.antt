-- ===== src/Session.antt =====
-- src/session: the state that one connection owns, with its grants and its handles, and the registry
-- of live sessions.
pub mod Auth
pub mod Handles
pub mod State
pub mod Registry
