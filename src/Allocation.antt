-- ===== src/Allocation.antt =====
-- The allocation of flows to the links of the network
-- (rest_client/path_hopping/flow_allocation.py).
pub mod Flow
pub mod Greedy
pub mod Solver
mod Tests
mod SplitTests
mod McfTests
pub mod Program
pub mod Splits
pub mod Ilp
pub mod Routes
pub mod Mcf
pub mod Shortest
