-- ===== src/Simulator.antt =====
-- The path-hopping simulator (rest_client/path_hopping_simulator): shares, nodes and flows of
-- simulator.py, the attackers of attackers.py, and the simulation's step.
pub mod Graph
pub mod Share
pub mod Node
pub mod Random
pub mod Flow
pub mod Attacker
pub mod World
mod Tests
mod GraphTests
mod RunTests
