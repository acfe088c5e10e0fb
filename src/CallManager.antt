-- ===== src/CallManager.antt =====
-- Package call_manager: the calls, the events that change them, and the cache that holds them.
pub mod State
pub mod Call
pub mod Manager
