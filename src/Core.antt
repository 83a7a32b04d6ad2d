-- ===== src/Core.antt =====
-- The engine: what is under core/.
pub mod Context
pub mod Target
pub mod Request
pub mod Session
pub mod Action
pub mod Bindings
pub mod Step
pub mod StateMachine
pub mod Workflow
mod Tests
