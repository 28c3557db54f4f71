-- ===== src/Examples.antt =====
-- Concrete inputs on which the theorems are applied, and the tests.
pub mod Data
pub mod Authorization
pub mod Contracts
pub mod Planner
pub mod Rules
pub mod Gateway
pub mod Planning
pub mod Graph
pub mod Retrieval
pub mod Metrics
pub mod Code
pub mod Pipeline
pub mod Statements
pub mod Gates
