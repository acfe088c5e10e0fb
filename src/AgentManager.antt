-- ===== src/AgentManager.antt =====
-- Package agent_manager: agents and their statuses.
pub mod Agent
pub mod Manager
