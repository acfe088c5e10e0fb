-- ===== src/App.antt =====
-- Package app: the rules of the application around the managers.
pub mod Agent
