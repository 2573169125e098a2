-- ===== src/Openflow.antt =====
-- The messages to the switches (rest_client/nw_control/flowmod.py).
pub mod Flowmod
