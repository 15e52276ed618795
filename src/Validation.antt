-- ===== src/Validation.antt =====
-- pkg/validation/field_validator.go: the checks on field names, operators, values, expressions and
-- table names. A nil error is `none`.
pub mod Error
pub mod Patterns
pub mod Field
pub mod Operator
pub mod Value
pub mod Names
