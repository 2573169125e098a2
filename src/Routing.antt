-- ===== src/Routing.antt =====
-- The multipath routing experiments (rest_client/mp_routing).
pub mod Trial
pub mod Orchestrator
pub mod Tags
mod Tests
mod RouteTests
