-- ===== src/Mirroring.antt =====
-- The mirroring experiments: rest_client/trials and rest_client/port_mirroring.
pub mod Flow
pub mod Switch
pub mod Solution
pub mod Trial
pub mod Definitions
pub mod FlowTrial
pub mod Provider
pub mod Physical
pub mod Requests
mod Tests
mod FlowTests
