-- ===== src/Query/Writes/Covered.antt =====
-- pkg/query/query.go: the condition expression of a write.
use dynamorm.Base.{
  ◌≡◌, ◌≢◌, ◌⊎◌, inl, inr, Bool, true, Option, none, some, List, [], ◌∷◌, if◌then◌else◌,
}
use dynamorm.Base.Text.{Text, Unicode, text_eq}
use dynamorm.Expr.Builder.{Builder, Converter, Result, new_builder}
use dynamorm.Query.State.{ModelMetadata, Condition}
use dynamorm.Query.Writes.{
  WriteFailure, RawExpression, Writes, conjoin, Asked, Conditional, is_nonempty,
}
use dynamorm.Validation.Value.{Value}
use dynamorm.Query.Writes.Requested.{asked}
use dynamorm.Expr.Builder.Log.{written}
use dynamorm.Expr.Builder.Applied.{Applied, with_and}

module _ {A : Type 0} (u : Unicode) (equal_fold : Text → Text → Bool) (c : Converter A)
    (convert : Value → Result A) (metadata : ModelMetadata) where
  -- The raw expressions behind an expression, one after the other, each with AND to those in front.
  abbrev pub conjoined : Text → List RawExpression → Text
  conjoined e [] = e
  conjoined e (raw ∷ raws) =
      if text_eq raw.expression []
      then conjoined e raws
      else conjoined (conjoin e raw.expression) raws

  Conjoins : Text → WriteFailure ⊎ (Text × List (Text × A)) → Type 0
  Conjoins e (inl f) = Unit
  Conjoins e (inr r) = r.0 ≡ e

  -- What is written of the conditions: each that is asked for is made by the builder, in order, and
  -- the expression has them, joined by AND, and then the raw expressions.
  pub record IsWritten (a : Asked u equal_fold c convert metadata) (w : Writes)
      (conditions : List Condition) (k : Conditional u equal_fold c convert metadata) : Type 0 where
    pub builder : Builder A
    pub made : List Text
    pub applied :
        Applied u c (asked u equal_fold c convert metadata a w conditions) new_builder made builder
    pub expression_is : k.expression ≡ conjoined (written (with_and made)) w.raws
    pub names_are : k.names ≡ builder.names
    pub guarded :
        a.default_if_empty ≡ true
        → (is_nonempty (asked u equal_fold c convert metadata a w conditions) ≡ true)
          ⊎ (w.raws ≢ [])

  -- Not a panic: an error or the conditions.
  abbrev pub Covers :
      Asked u equal_fold c convert metadata
      → Writes
      → List Condition
      → Option (WriteFailure ⊎ Conditional u equal_fold c convert metadata)
      → Type 0
  Covers a w conditions none = ⊥
  Covers a w conditions (some (inl e)) = Unit
  Covers a w conditions (some (inr k)) = IsWritten a w conditions k
