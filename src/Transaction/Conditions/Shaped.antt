-- ===== src/Transaction/Conditions/Shaped.antt =====
-- pkg/transaction/builder.go: `Build` after the conditions of an operation.
use dynamorm.Base.{
  ◌≡◌, ap, ◌∙◌, Bool, true, false, ◌&&◌, Option, none, some, List, [], if◌then◌else◌,
}
use dynamorm.Base.Text.{Text, Unicode, text_eq}
use dynamorm.Expr.Builder.{Builder, Converter, Result, new_builder}
use dynamorm.Transaction.Conditions.Merged.{conjoined, IsMerged, merge_raw_conditions-IsMerged}
use dynamorm.Expr.Builder.Applied.{Applied, Applied-IsLogged, with_and}
use dynamorm.Expr.Builder.Built.{Written, build-Written}
use dynamorm.Expr.Builder.Log.{written, new_builder-IsLogged}
use dynamorm.Transaction.{TransactCondition, no_conditions}
use dynamorm.Transaction.Conditions.{
  Metadata, RawCondition, Outcome, done, fail, then_with, apply_conditions, Guard, merged_with,
  is_empty, guard_after, build_guard,
}
use dynamorm.Validation.Value.{Value}
use dynamorm.Transaction.Conditions.Requested.{
  Holds, Pair, requests_of, raws_of, apply_conditions-Holds,
}

module _ {A : Type 0} (u : Unicode) (c : Converter A) (convert : Value → Result A) where
  -- What is written of the conditions: the builder makes what each asks of it, in order.
  pub record IsGuarded (metadata : Metadata) (conds : List TransactCondition) (g : Guard A)
      : Type 0 where
    pub builder : Builder A
    pub made : List Text
    pub applied : Applied u c (requests_of u c convert metadata conds) new_builder made builder
    pub expression_is :
        g.expression ≡ conjoined (written (with_and made)) (raws_of u c convert conds)
    pub names_are : g.names ≡ builder.names

  -- Not a panic: an error or a guard.
  abbrev pub Guards : Metadata → List TransactCondition → Option (Outcome (Guard A)) → Type 0
  Guards metadata conds none = ⊥
  Guards metadata conds (some (fail e)) = Unit
  Guards metadata conds (some (done g)) = IsGuarded metadata conds g

  module _ (metadata : Metadata) (conds : List TransactCondition) where
    merged-Guards :
        (b : Builder A) (raws : List (RawCondition A))
        → raws ≡ raws_of u c convert conds
        → (made : List Text)
        → Applied u c (requests_of u c convert metadata conds) new_builder made b
        → (built : Written [] (with_and made) b) (o : Outcome (Text × List (Text × A)))
        → IsMerged built.components.condition_expression
            built.components.expression_attribute_values raws o
        → Guards metadata conds (
            some (
              then_with o (λ r. done (record {
                expression = r.0;
                names = built.components.expression_attribute_names;
                values = r.1;
              }))))
    merged-Guards b raws e made h built (fail other) m = tt
    merged-Guards b raws e made h built (done r) m = record {
      builder = b;
      made = made;
      applied = h;
      expression_is =
          m.0
          ∙ ap (λ t. conjoined t raws) built.condition_is
          ∙ ap (conjoined (written (with_and made))) e;
      names_are = built.names_are;
    }

    if-Guards :
        (test : Bool) (x y : Outcome (Guard A))
        → Guards metadata conds (some x)
        → Guards metadata conds (some y)
        → Guards metadata conds (some (if test then x else y))
    if-Guards true x y h k = h
    if-Guards false x y h k = k

    guard_after-Guards :
        (needed : Bool) (o : Outcome (Builder A × List (RawCondition A)))
        → Holds
            (Pair u c convert
              (requests_of u c convert metadata conds)
              (raws_of u c convert conds)
              new_builder)
            o
        → Guards metadata conds (guard_after needed o)
    guard_after-Guards needed (fail e) v = tt
    guard_after-Guards needed (done (b, raws)) v =
        let made = v.0.0 in
        let built =
          build-Written [] (with_and made) b
            (Applied-IsLogged u c _ new_builder b made [] [] v.0.1 new_builder-IsLogged) in
        rw built.returned (
          if-Guards (needed && text_eq built.components.condition_expression [] && is_empty raws)
            (fail no_conditions) (merged_with raws built.components) tt
            (merged-Guards b raws v.1 made v.0.1 built _ (
              merge_raw_conditions-IsMerged built.components.condition_expression
                built.components.expression_attribute_values raws)))

    -- The conditions of an operation never make `Build` panic. Where they give no error, the builder
    -- has made what each of them asks for, in order: the condition on its field, those that the key
    -- exists or does not, the one on the version. The condition that is written has what it made, joined
    -- by AND, and then, each with AND, the raw expressions of the operation; its names are those of the
    -- builder.
    pub build_guard-Guards :
        (needed : Bool) → Guards metadata conds (build_guard u c convert needed metadata conds)
    unfolding build_guard
    build_guard-Guards needed =
        guard_after-Guards needed (apply_conditions u c convert metadata conds new_builder)
          (apply_conditions-Holds u c convert metadata conds new_builder)
