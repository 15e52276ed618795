-- ===== src/Validation/Error.antt =====
-- The errors of pkg/validation, and the chain of checks that returns the first one.
use Prim.Native.String.{String}
use dynamorm.Base.{Bool, true, false, Option, none, some}

-- `SecurityError`; its field `Field` is empty wherever this package makes one.
pub record SecurityError : Type 0 where
  pub kind : String
  pub detail : String

pub data Error : Type 0 where
  security : SecurityError → Error
  plain : String → Error  -- fmt.Errorf

abbrev pub Check : Type 0
Check = Option Error

abbrev pub reject : String → String → Check
reject kind detail = some (security (record { kind = kind; detail = detail }))

-- `if test { return err }`, and what follows.
infixr 30 ◌>?◌
abbrev pub ◌>?◌ : Check → Check → Check
none >? next = next
some e >? next = some e

abbrev pub fail_if : Bool → Check → Check
fail_if true e = e
fail_if false e = none
