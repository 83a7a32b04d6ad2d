-- ===== src/Storage.antt =====
-- What is written to a property tree and read back: the methods `save` and `load`.
pub mod Tree
pub mod Keys
pub mod Target
pub mod Entries
pub mod Contexts
pub mod ContextsBack
pub mod Properties
pub mod PropertiesBack
pub mod Reports
pub mod RequestsBack
pub mod Machine
pub mod ListsBack
pub mod ExposedBack
pub mod MachineBack
pub mod Replayed
pub mod Workflow
pub mod Wrapped
pub mod Text
pub mod Refs
pub mod Samples
mod Tests
