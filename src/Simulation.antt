-- ===== src/Simulation.antt =====
-- The engine of momosecpp/src/Simulation.cpp: the clock, the two managers and the main loop.
pub mod Clock
pub mod Cycle
pub mod Ending
pub mod Physics
pub mod Collision
pub mod Totality
pub mod Phases
