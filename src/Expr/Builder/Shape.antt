-- ===== src/Expr/Builder/Shape.antt =====
-- internal/expr/builder.go: the operators between conditions, through every method, and `Build`.
use dynamorm.Base.{
  ◌-◌, ◌≡◌, refl, sym, ap, ◌∙◌, inl, inr, List, [], ◌∷◌, ◌++◌, arith, Bool-cases, if◌then◌else◌,
  length, ltb, length-append,
}
use dynamorm.Base.Text.{Text, Unicode, text_eq}
use dynamorm.Validation.Value.{Value}
use dynamorm.Expr.Builder.{Builder, Converter, M, ◌>>=◌, continue, Result, ok, err}
use dynamorm.Expr.Builder.Condition.{build_condition, add_key_condition}
use dynamorm.Expr.Builder.Build.{
  Components, push_filter, push_condition, add_filter_condition, add_condition_expression_with_op,
  add_projection, reset_conditions, add_group_filter,
}
use dynamorm.Expr.Builder.Frame.{conditions_of, Frames, add_name_secure-Frames}
use dynamorm.Expr.Builder.Condition.Frame.{build_condition-Frames}
use dynamorm.Expr.Builder.Update.Frame.{
  add_update_set-Frames, add_update_add-Frames, add_update_remove-Frames,
  add_update_function-Frames,
}
use dynamorm.Expr.Builder.Update.{
  add_update_set, add_update_add, add_update_remove, add_update_function,
}

-- A call of a method of the builder.
pub data Method (A : Type 0) : Type 0 where
  key_condition : Text → Text → Value → Method A
  filter_condition write_condition : Text → Text → Text → Value → Method A
  group_filter : Text → Components A → Method A
  projection : List Text → Method A
  update_set update_add : Text → Value → Method A
  update_remove : Text → Method A
  update_function : Text → Text → List Value → Method A
  reset : Method A

-- The builder after the call, whether or not the method returned an error.
unfoldable pub call : {A : Type 0} → Unicode → Converter A → Method A → Builder A → Builder A
call u c (key_condition field op value) b = (add_key_condition u c field op value b).0
call u c (filter_condition logical_op field op value) b =
    (add_filter_condition u c logical_op field op value b).0
call u c (write_condition logical_op field op value) b =
    (add_condition_expression_with_op u c logical_op field op value b).0
call u c (group_filter logical_op components) b = add_group_filter logical_op components b
call u c (projection fields) b = add_projection u b fields
call u c (update_set field value) b = (add_update_set u c field value b).0
call u c (update_add field value) b = (add_update_add u c field value b).0
call u c (update_remove field) b = (add_update_remove u field b).0
call u c (update_function field function args) b = (add_update_function u c field function args b).0
call u c reset b = reset_conditions b

unfoldable pub call_all :
    {A : Type 0} → Unicode → Converter A → List (Method A) → Builder A → Builder A
call_all u c [] b = b
call_all u c (m ∷ ms) b = call_all u c ms (call u c m b)

-- One operator less than conditions, and none where there is no condition.
pub record IsShaped {A : Type 0} (b : Builder A) : Type 0 where
  pub filters : length b.filter_operators ≡ length b.filter_conditions - 1
  pub writes : length b.condition_operators ≡ length b.conditions - 1

kept-IsShaped :
    {A : Type 0} (b b' : Builder A) → conditions_of b' ≡ conditions_of b → IsShaped b → IsShaped b'
kept-IsShaped b b' e v = record {
  filters =
      ap (λ k. length k.filter_operators) e ∙ v.filters ∙ ap (λ k. length k.filters - 1) (sym e);
  writes = ap (λ k. length k.write_operators) e ∙ v.writes ∙ ap (λ k. length k.writes - 1) (sym e);
}

-- The list with one operator in front of each further condition.
grown :
    (es ops : List Text) (e op : Text)
    → length ops ≡ length es - 1
    → length (if ltb 1 (length (es ++ e ∷ [])) then ops ++ op ∷ [] else ops)
      ≡ length (es ++ e ∷ []) - 1
grown es ops e op h = ground (arith, length-append es (e ∷ []), length-append ops (op ∷ []))

push_filter-IsShaped :
    {A : Type 0} (op e : Text) (b : Builder A) → IsShaped b → IsShaped (push_filter op e b)
unfolding push_filter
push_filter-IsShaped op e b v = record {
  filters = grown b.filter_conditions b.filter_operators e op v.filters;
  writes = v.writes;
}

push_condition-IsShaped :
    {A : Type 0} (op e : Text) (b : Builder A) → IsShaped b → IsShaped (push_condition op e b)
unfolding push_condition
push_condition-IsShaped op e b v = record {
  filters = v.filters;
  writes = grown b.conditions b.condition_operators e op v.writes;
}

-- A step that leaves the conditions alone, and what it is followed by.
then-IsShaped :
    {A X Y : Type 0} (m : M A X) (f : X → M A Y)
    → Frames m
    → ((x : X) (b : Builder A) → IsShaped b → IsShaped (f x b).0)
    → (b : Builder A) → IsShaped b
    → IsShaped ((m >>= f) b).0
unfolding ◌>>=◌
then-IsShaped {A = A} {X = X} m f h k b v = go (m b) (kept-IsShaped b (m b).0 (h b) v)
  where
    go : (r : Builder A × Result X) → IsShaped r.0 → IsShaped (continue r f).0
    go (b, ok x) v = k x b v
    go (b, err e) v = v

pub add_projection-IsShaped :
    {A : Type 0} (u : Unicode) (fields : List Text) (b : Builder A)
    → IsShaped b
    → IsShaped (add_projection u b fields)
unfolding add_projection
add_projection-IsShaped u [] b v = v
add_projection-IsShaped u (field ∷ fields) b v =
    add_projection-IsShaped u fields _ (kept-IsShaped b _ (add_name_secure-Frames u b field) v)

add_group_filter-IsShaped :
    {A : Type 0} (op : Text) (k : Components A) (b : Builder A)
    → IsShaped b
    → IsShaped (add_group_filter op k b)
unfolding add_group_filter
add_group_filter-IsShaped op k b v = elim (Bool-cases (text_eq k.filter_expression [])) [
  | inl empty ↦ rw (empty, add_group_filter) (kept-IsShaped b _ refl v)
  | inr some_filter ↦
      rw (some_filter, add_group_filter) (push_filter-IsShaped op _ _ (kept-IsShaped b _ refl v))
]

module _ {A : Type 0} (u : Unicode) (c : Converter A) where
  pub call-IsShaped : (m : Method A) (b : Builder A) → IsShaped b → IsShaped (call u c m b)
  unfolding call add_key_condition add_filter_condition add_condition_expression_with_op
      reset_conditions
  call-IsShaped (key_condition field op value) b v =
      then-IsShaped (build_condition u c field op value) _
        (build_condition-Frames u c field op value) (λ e b v. kept-IsShaped b _ refl v) b v
  call-IsShaped (filter_condition logical_op field op value) b v =
      then-IsShaped (build_condition u c field op value) _
        (build_condition-Frames u c field op value) (push_filter-IsShaped logical_op) b v
  call-IsShaped (write_condition logical_op field op value) b v =
      then-IsShaped (build_condition u c field op value) _
        (build_condition-Frames u c field op value) (push_condition-IsShaped logical_op) b v
  call-IsShaped (group_filter logical_op components) b v =
      add_group_filter-IsShaped logical_op components b v
  call-IsShaped (projection fields) b v = add_projection-IsShaped u fields b v
  call-IsShaped (update_set field value) b v =
      kept-IsShaped b _ (add_update_set-Frames u c field value b) v
  call-IsShaped (update_add field value) b v =
      kept-IsShaped b _ (add_update_add-Frames u c field value b) v
  call-IsShaped (update_remove field) b v = kept-IsShaped b _ (add_update_remove-Frames u field b) v
  call-IsShaped (update_function field function args) b v =
      kept-IsShaped b _ (add_update_function-Frames u c field function args b) v
  call-IsShaped reset b v = record { filters = v.filters; writes = refl }

  pub call_all-IsShaped :
      (ms : List (Method A)) (b : Builder A) → IsShaped b → IsShaped (call_all u c ms b)
  unfolding call_all
  call_all-IsShaped [] b v = v
  call_all-IsShaped (m ∷ ms) b v = call_all-IsShaped ms (call u c m b) (call-IsShaped m b v)
