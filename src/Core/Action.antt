-- ===== src/Core/Action.antt =====
-- core/action.h, core/action.cpp, core/put_definition.h and core/action_wrappers.cpp.
pub mod Contract
pub mod Properties
pub mod Results
pub mod Wrapper
pub mod Checks
pub mod Layers
