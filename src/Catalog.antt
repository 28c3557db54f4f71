-- ===== src/Catalog.antt =====
-- Exact, authorized metadata access (app/catalog).
pub mod Service
