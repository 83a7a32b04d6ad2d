-- ===== src/Actions.antt =====
-- The ready-made actions: what is under actions/.
pub mod ExecuteWorkflow
pub mod Preparation
pub mod Requests
mod Tests
