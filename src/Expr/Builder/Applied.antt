-- ===== src/Expr/Builder/Applied.antt =====
-- internal/expr/builder.go: the conditions of a write that are asked of a builder, one after the other.
use dynamorm.Base.{◌≡◌, refl, sym, ap, ◌∙◌, List, [], ◌∷◌, ◌++◌}
use mathlib.Core.List.{append_assoc, append-nil}
use dynamorm.Base.Text.{Text, Unicode, codes}
use dynamorm.Validation.Value.{Value}
use dynamorm.Expr.Builder.{Builder, Converter, Result, ok, err, continue, ◌>>=◌}
use dynamorm.Expr.Builder.Condition.{build_condition}
use dynamorm.Expr.Builder.Condition.Frame.{build_condition-Frames}
use dynamorm.Expr.Builder.Build.{
  push_condition, add_condition_expression, add_condition_expression_with_op,
}
use dynamorm.Expr.Builder.Frame.{conditions_of}
use dynamorm.Expr.Builder.Log.{IsLogged, kept-IsLogged, push_condition-IsLogged}

-- The field, the operator and the value of a condition.
abbrev pub Request : Type 0
Request = Text × (Text × Value)

abbrev pub with_and : List Text → List (Text × Text)
with_and [] = []
with_and (e ∷ es) = (codes "AND", e) ∷ with_and es

with_and-append : (es ds : List Text) → with_and (es ++ ds) ≡ with_and es ++ with_and ds
with_and-append [] ds = refl
with_and-append (e ∷ es) ds = ap (λ l. (codes "AND", e) ∷ l) (with_and-append es ds)

module _ {A : Type 0} (u : Unicode) (c : Converter A) where
  -- From a builder to another one by `AddConditionExpression` of each request, in order, none of which
  -- fails; the texts are the conditions that `buildCondition` makes of them.
  abbrev pub Applied : List Request → Builder A → List Text → Builder A → Type 0
  Applied [] b es b' = (es ≡ []) × (b' ≡ b)
  Applied ((field, (op, value)) ∷ requests) b es b' =
      (e : Text) × (made : Builder A) × (rest : List Text) × (build_condition u c field op value b
        ≡ (made, ok e))
      × (es ≡ e ∷ rest)
      × Applied requests (push_condition (codes "AND") e made) rest b'

  pub Applied-append :
      (xs ys : List Request) (b b1 b2 : Builder A) (es ds : List Text)
      → Applied xs b es b1
      → Applied ys b1 ds b2
      → Applied (xs ++ ys) b (es ++ ds) b2
  Applied-append [] ys b b1 b2 es ds (e, same) k = rw (e, ← same) k
  Applied-append ((field, (op, value)) ∷ xs) ys b b1 b2 es ds (e, made, rest, h, s, t) k =
      (e, made, rest ++ ds, h, ap (λ l. l ++ ds) s, Applied-append xs ys _ b1 b2 rest ds t k)

  -- What one request makes, if there is no error.
  pub one-Applied :
      (field op : Text) (value : Value) (b made : Builder A) (e : Text)
      → build_condition u c field op value b ≡ (made, ok e)
      → Applied ((field, (op, value)) ∷ []) b (e ∷ []) (push_condition (codes "AND") e made)
  one-Applied field op value b made e h = (e, made, [], h, refl, (refl, refl))

  pub Applied-IsLogged :
      (xs : List Request) (b b' : Builder A) (es : List Text) (fs ws : List (Text × Text))
      → Applied xs b es b'
      → IsLogged fs ws b
      → IsLogged fs (ws ++ with_and es) b'
  Applied-IsLogged [] b b' es fs ws (e, same) v = rw (e, append-nil ws, same) v
  Applied-IsLogged ((field, (op, value)) ∷ xs) b b' es fs ws (e, made, rest, h, s, t) v =
      let kept =
        kept-IsLogged fs ws b made
          (ap (λ r. conditions_of r.0) (sym h) ∙ build_condition-Frames u c field op value b) v in
      rw (s, ← (append_assoc ws ((codes "AND", e) ∷ []) (with_and rest)))
        (Applied-IsLogged xs _ b' rest fs (ws ++ (codes "AND", e) ∷ []) t
          (push_condition-IsLogged fs ws made kept (codes "AND") e))

  -- A request that a method took on: its condition is made and pushed, or there is an error.
  abbrev pub Takes : Request → Builder A → Builder A × Result (Unit {0}) → Type 0
  Takes request b (b', err x) = Unit
  Takes request b (b', ok x) = (es : List Text) × Applied (request ∷ []) b es b'

  pub add_condition_expression-Takes :
      (field op : Text) (value : Value) (b : Builder A)
      → Takes (field, (op, value)) b (add_condition_expression u c field op value b)
  unfolding add_condition_expression add_condition_expression_with_op ◌>>=◌
  add_condition_expression-Takes field op value b = go (build_condition u c field op value b) refl
    where
      go :
          (r : Builder A × Result Text)
          → build_condition u c field op value b ≡ r
          → Takes
              (field, (op, value))
              b
              (continue r (λ e b'. (push_condition (codes "AND") e b', ok tt)))
      go (made, ok e) h = (e ∷ [], one-Applied field op value b made e h)
      go (made, err x) h = tt
