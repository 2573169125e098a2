-- ===== src/Trials.antt =====
-- Trials and their providers (rest_client/nw_control/trial_provider.py), and the trials of the
-- simulator (rest_client/path_hopping_simulator/trials.py).
pub mod Trial
pub mod Provider
pub mod Parameters
pub mod Numbered
mod Tests
