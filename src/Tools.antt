-- ===== src/Tools.antt =====
-- The helpers that the engine stands on: what is under tools/.
pub mod PropertySet
pub mod ErrorReport
pub mod Ancestry
mod Tests
