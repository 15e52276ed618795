-- ===== src/Expr/Builder/Built.antt =====
-- internal/expr/builder.go: what `Build` makes of the conditions and their operators.
use dynamorm.Base.{
  ℕ, zero, suc, ◌+◌, ◌-◌, ◌≤◌, ◌<◌, ◌≡◌, refl, ap, ◌∙◌, some, List, [], ◌∷◌, ◌++◌, arith, length,
  get_elem?, drop,
}
use dynamorm.Base.Text.{Text, Unicode, codes}
use dynamorm.Expr.Builder.{Builder, Converter, new_builder}
use dynamorm.Expr.Builder.Build.{
  Components, filter_loop, build_filter, condition_loop, build_conditions, components_with, build,
}
use dynamorm.Expr.Builder.Log.{
  IsLogged, behind, written, expressions, operators, operators_in, filters_of, writes_of,
  call_all-IsLogged, new_builder-IsLogged, IsLogged-IsShaped,
}
use dynamorm.Expr.Builder.Shape.{Method, call_all, IsShaped}

alternate : List Text → List Text → Text
alternate [] ops = []
alternate (e ∷ es) [] = []
alternate (e ∷ es) (op ∷ ops) = codes " " ++ (op ++ (codes " " ++ (e ++ alternate es ops)))

-- Conditions and operators in turns, each operator in front of the condition it came with.
pub spelled : List Text → List Text → Text
unfolding alternate
spelled [] ops = []
spelled (e ∷ es) ops = e ++ alternate es ops

-- The operator at an index that the list has.
record At (ops : List Text) (i : ℕ) : Type 0 where
  op : Text
  is : get_elem? ops i ≡ some op
  rest : drop i ops ≡ op ∷ drop (suc i) ops

at : (ops : List Text) (i : ℕ) → i < length ops → At ops i
at [] i h = absurd (omega (arith, h))
at (op ∷ ops) zero h = record { op = op; is = refl; rest = refl }
at (op ∷ ops) (suc i) h =
    let a = at ops i (omega (arith, h)) in record { op = a.op; is = a.is; rest = a.rest }

filter_loop-alternate :
    (es ops : List Text) (i : ℕ)
    → i + length es ≤ length ops
    → filter_loop ops i es ≡ some (alternate es (drop i ops))
unfolding filter_loop alternate
filter_loop-alternate [] ops i h = refl
filter_loop-alternate (e ∷ es) ops i h =
    let a = at ops i (omega (arith, h)) in
    rw (a.is, filter_loop, a.rest, filter_loop-alternate es ops (suc i) (omega (arith, h))) refl

condition_loop-alternate :
    (es ops : List Text) (i : ℕ)
    → i + length es ≤ length ops
    → condition_loop ops i es ≡ alternate es (drop i ops)
unfolding condition_loop alternate
condition_loop-alternate [] ops i h = refl
condition_loop-alternate (e ∷ es) ops i h =
    let a = at ops i (omega (arith, h)) in
    rw (a.is, condition_loop, a.rest, condition_loop-alternate es ops (suc i) (omega (arith, h)))
      refl

build_filter-spelled :
    (es ops : List Text) → length ops ≡ length es - 1 → build_filter es ops ≡ some (spelled es ops)
unfolding build_filter spelled
build_filter-spelled [] ops h = refl
build_filter-spelled (e ∷ es) ops h =
    rw (filter_loop-alternate es ops 0 (omega (arith, h)), build_filter) refl

build_conditions-spelled :
    (es ops : List Text) → length ops ≡ length es - 1 → build_conditions es ops ≡ spelled es ops
unfolding build_conditions spelled
build_conditions-spelled [] ops h = refl
build_conditions-spelled (e ∷ es) ops h =
    ap (λ t. e ++ t) (condition_loop-alternate es ops 0 (omega (arith, h)))

-- What `Build` is to return.
pub record IsBuilt {A : Type 0} (b : Builder A) : Type 0 where
  pub components : Components A
  pub returned : build b ≡ some components
  pub filter_is : components.filter_expression ≡ spelled b.filter_conditions b.filter_operators
  pub condition_is : components.condition_expression ≡ spelled b.conditions b.condition_operators
  pub names_are : components.expression_attribute_names ≡ b.names

pub new_builder-IsShaped : {A : Type 0} → IsShaped {A = A} new_builder
unfolding new_builder
new_builder-IsShaped = record { filters = refl; writes = refl }

pub build-IsBuilt : {A : Type 0} (b : Builder A) → IsShaped b → IsBuilt b
unfolding build components_with
build-IsBuilt b v = record {
  components = components_with b (spelled b.filter_conditions b.filter_operators);
  returned = rw (build_filter-spelled b.filter_conditions b.filter_operators v.filters, build) refl;
  filter_is = refl;
  condition_is = build_conditions-spelled b.conditions b.condition_operators v.writes;
  names_are = refl;
}

spelled-written :
    (entries : List (Text × Text))
    → spelled (expressions entries) (operators entries) ≡ written entries
unfolding spelled alternate
spelled-written [] = refl
spelled-written ((op, e) ∷ entries) = ap (λ t. e ++ t) (alternate-behind entries)
  where
    alternate-behind :
        (entries : List (Text × Text))
        → alternate (expressions entries) (operators_in entries) ≡ behind entries
    alternate-behind [] = refl
    alternate-behind ((op, e) ∷ entries) =
        ap (λ t. codes " " ++ (op ++ (codes " " ++ (e ++ t)))) (alternate-behind entries)

-- What `Build` is to return, from the filters and the conditions of a write that were added.
pub record Written {A : Type 0} (fs ws : List (Text × Text)) (b : Builder A) : Type 0 where
  pub components : Components A
  pub returned : build b ≡ some components
  pub filter_is : components.filter_expression ≡ written fs
  pub condition_is : components.condition_expression ≡ written ws
  pub names_are : components.expression_attribute_names ≡ b.names

pub build-Written :
    {A : Type 0} (fs ws : List (Text × Text)) (b : Builder A) → IsLogged fs ws b → Written fs ws b
build-Written fs ws b v =
    let built = build-IsBuilt b (IsLogged-IsShaped fs ws b v) in
    record {
      components = built.components;
      returned = built.returned;
      filter_is = built.filter_is ∙ rw (v.filters, v.filter_operators) (spelled-written fs);
      condition_is = built.condition_is ∙ rw (v.writes, v.write_operators) (spelled-written ws);
      names_are = built.names_are;
    }

-- After any calls of the methods of a new builder, those that failed included, `Build` returns: its
-- loop over the filter operators stays in range. Its filter has what the calls that add filters made,
-- in the order of the calls, each but the first with the operator of its own call in front; its
-- condition expression has the same of the calls that add conditions of a write behind the last reset.
-- Its names are those of the builder.
pub call_all-IsBuilt :
    {A : Type 0} (u : Unicode) (c : Converter A) (ms : List (Method A))
    → Written
        (filters_of u c ms new_builder [])
        (writes_of u c ms new_builder [])
        (call_all u c ms new_builder)
call_all-IsBuilt u c ms =
    build-Written _ _ (call_all u c ms new_builder)
      (call_all-IsLogged u c ms [] [] new_builder new_builder-IsLogged)
