-- ===== src/Sql.antt =====
-- app/sql: the gateway that executes a query.
pub mod Gateway
pub mod Dialect
pub mod Compiler
pub mod Validators
