-- ===== src/Core/StateMachine.antt =====
-- core/state_machine.h and core/state_machine.cpp.
pub mod Layout
pub mod Schedule
pub mod Execution
pub mod Entry
pub mod Async
pub mod Rounds
pub mod Order
pub mod Switch
pub mod Steps
pub mod Placement
pub mod Consistency
pub mod Traces
pub mod Endings
pub mod ErrorFlow
pub mod ErrorEnds
pub mod Sources
pub mod Built
pub mod Specials
pub mod Feeds
pub mod Arrivals
pub mod Levels
pub mod ErrorRequest
pub mod Validation
pub mod Validated
pub mod Scenarios
mod Tests
mod ValidationTests
