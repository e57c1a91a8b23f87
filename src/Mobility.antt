-- ===== src/Mobility.antt =====
-- The movement of the nodes: momosecpp/src/RandomWalkNode.cpp,
-- RandomWaypointNode.cpp and HotSpotNode.cpp.
pub mod Walk
pub mod Guide
pub mod Groups
pub mod Setups
pub mod HotSpots
pub mod Spots
pub mod Route
