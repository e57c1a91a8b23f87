-- ===== src/Tests.antt =====
-- Concrete inputs, and the theorems at them.
pub mod Sample
pub mod Unary
pub mod Written
pub mod Runs
pub mod Nodes
pub mod Models
pub mod Engine
pub mod Movement
pub mod Groups
pub mod Rounding
pub mod Traces
pub mod Configs
pub mod Loading
