-- ===== src/Relationships.antt =====
-- Join planning over approved relationships (app/relationships).
pub mod Planner
