-- ===== src/Service.antt =====
-- service/: the clients and the managers that hand requests round.
pub mod Client
pub mod Routing
pub mod Startup
pub mod Temporary
mod Tests
