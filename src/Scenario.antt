-- ===== src/Scenario.antt =====
-- The scenario: the buildings of momosecpp/src/ScenCircle.cpp and momosecpp/src/ScenRectangle.cpp, and
-- the queries of momosecpp/src/Scenario.cpp.
pub mod Writing
pub mod Shapes
pub mod Queries
pub mod Nearest
