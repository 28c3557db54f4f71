-- ===== src/Authorization.antt =====
-- The policy decision point and the scope that it establishes (app/authorization).
pub mod Policy
pub mod Scope
