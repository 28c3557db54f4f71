-- ===== src/Planning.antt =====
-- app/planning: from what a model proposes to a bound plan, and what a repair may change.
pub mod Repair
pub mod Clarify
pub mod Binder
pub mod Lowering
