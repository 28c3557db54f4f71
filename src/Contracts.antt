-- ===== src/Contracts.antt =====
-- The data that the components exchange (app/contracts).
pub mod Errors
pub mod Ids
pub mod Expressions
pub mod Scope
pub mod Coverage
pub mod Records
pub mod Plan
pub mod Retrieval
pub mod Clarification
