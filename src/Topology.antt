-- ===== src/Topology.antt =====
-- The network that the controller knows, and the topology that an experiment wants:
-- rest_client/nw_control/topo_mapper.py.
pub mod Controller
pub mod Graph
pub mod Mapper
mod Tests
