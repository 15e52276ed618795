-- ===== src/Tests.antt =====
-- Concrete runs of the models, and each property applied to one.
pub mod Text
pub mod Protection
pub mod Validation
pub mod Expr
pub mod Query
pub mod Queries
pub mod Batches
pub mod Index
pub mod Naming
pub mod Transaction
