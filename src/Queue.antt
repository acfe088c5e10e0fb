-- ===== src/Queue.antt =====
-- Package queue: the resources that a queue dials through, tasks, attempts and teams.
pub mod Resource
pub mod Task
pub mod State
pub mod Attempt
pub mod Team
pub mod Base
pub mod JoinAgent
pub mod Manager
