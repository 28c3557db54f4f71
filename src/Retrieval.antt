-- ===== src/Retrieval.antt =====
-- app/retrieval: the search for candidates and the rechecks on what it finds.
pub mod Fusion
pub mod Service
