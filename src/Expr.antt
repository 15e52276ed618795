-- ===== src/Expr.antt =====
-- internal/expr/builder.go: the builder of DynamoDB expressions.
pub mod Reserved
pub mod Builder
