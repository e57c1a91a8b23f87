-- ===== src/Manager.antt =====
-- class SimulationManager (momosecpp/src/SimulationManager.cpp): the paths of the configuration files,
-- and the builders that a configuration names.
pub mod Files
pub mod Paths
pub mod Builders
pub mod Known
pub mod Models
pub mod Setup
