-- ===== src/Semantics.antt =====
-- app/semantics: the closure of the rules and the resolution of metrics.
pub mod Rules
pub mod Metrics
