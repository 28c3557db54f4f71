-- ===== src/Graph.antt =====
-- app/graph: the state machine that carries a request from its admission to an answer.
pub mod State
pub mod Nodes
pub mod Build
pub mod Measure
pub mod Safety
