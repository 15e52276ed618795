-- ===== src/Expr/Builder/Log.antt =====
-- internal/expr/builder.go: which conditions the calls add, with their operators, and how `Build`
-- writes them.
use dynamorm.Base.{
  suc, ◌≡◌, ◌-◌, refl, sym, ap, ◌∙◌, inl, inr, List, [], ◌∷◌, ◌++◌, arith, Bool-cases,
  if◌then◌else◌, length, ltb, length-append,
}
use dynamorm.Base.Text.{Text, Unicode, codes, text_eq}
use dynamorm.Expr.Builder.{Builder, Converter, continue, Result, ok, err, new_builder, ◌>>=◌}
use dynamorm.Expr.Builder.Condition.{build_condition, add_key_condition}
use dynamorm.Expr.Builder.Build.{
  Components, push_filter, push_condition, add_filter_condition, add_condition_expression_with_op,
  add_projection, reset_conditions, add_group_filter,
}
use dynamorm.Expr.Builder.Frame.{conditions_of, add_name_secure-Frames}
use dynamorm.Expr.Builder.Condition.Frame.{build_condition-Frames}
use dynamorm.Expr.Builder.Update.Frame.{
  add_update_set-Frames, add_update_add-Frames, add_update_remove-Frames,
  add_update_function-Frames,
}
use dynamorm.Expr.Builder.Shape.{
  Method, key_condition, filter_condition, write_condition, group_filter, projection, update_set,
  update_add, update_remove, update_function, reset, call, call_all, IsShaped,
}

-- Conditions behind another one, each with its operator in front.
abbrev pub behind : List (Text × Text) → Text
behind [] = []
behind ((op, e) ∷ entries) = codes " " ++ (op ++ (codes " " ++ (e ++ behind entries)))

-- Conditions in order, each but the first with its own operator in front.
abbrev pub written : List (Text × Text) → Text
written [] = []
written ((op, e) ∷ entries) = e ++ behind entries

abbrev pub expressions : List (Text × Text) → List Text
expressions [] = []
expressions ((op, e) ∷ entries) = e ∷ expressions entries

abbrev pub operators_in : List (Text × Text) → List Text
operators_in [] = []
operators_in ((op, e) ∷ entries) = op ∷ operators_in entries

abbrev pub operators : List (Text × Text) → List Text
operators [] = []
operators (entry ∷ entries) = operators_in entries

-- A condition that is made is an entry more, under its operator.
abbrev logged :
    {A : Type 0} → Text → List (Text × Text) → Builder A × Result Text → List (Text × Text)
logged op entries (b, ok e) = entries ++ (op, e) ∷ []
logged op entries (b, err x) = entries

module _ {A : Type 0} (u : Unicode) (c : Converter A) where
  -- The filters after a call, and the conditions of a write.
  abbrev pub filters_after : Method A → Builder A → List (Text × Text) → List (Text × Text)
  filters_after (filter_condition logical_op field op value) b entries =
      logged logical_op entries (build_condition u c field op value b)
  filters_after (group_filter logical_op k) b entries =
      if text_eq k.filter_expression []
      then entries
      else entries ++ (logical_op, codes "(" ++ (k.filter_expression ++ codes ")")) ∷ []
  filters_after _ b entries = entries

  abbrev pub writes_after : Method A → Builder A → List (Text × Text) → List (Text × Text)
  writes_after (write_condition logical_op field op value) b entries =
      logged logical_op entries (build_condition u c field op value b)
  writes_after reset b entries = []
  writes_after _ b entries = entries

  abbrev pub filters_of : List (Method A) → Builder A → List (Text × Text) → List (Text × Text)
  filters_of [] b entries = entries
  filters_of (m ∷ ms) b entries = filters_of ms (call u c m b) (filters_after m b entries)

  abbrev pub writes_of : List (Method A) → Builder A → List (Text × Text) → List (Text × Text)
  writes_of [] b entries = entries
  writes_of (m ∷ ms) b entries = writes_of ms (call u c m b) (writes_after m b entries)

-- A builder that holds these filters and these conditions of a write.
pub record IsLogged {A : Type 0} (fs ws : List (Text × Text)) (b : Builder A) : Type 0 where
  pub filters : b.filter_conditions ≡ expressions fs
  pub filter_operators : b.filter_operators ≡ operators fs
  pub writes : b.conditions ≡ expressions ws
  pub write_operators : b.condition_operators ≡ operators ws

pub kept-IsLogged :
    {A : Type 0} (fs ws : List (Text × Text)) (b b' : Builder A)
    → conditions_of b' ≡ conditions_of b
    → IsLogged fs ws b
    → IsLogged fs ws b'
kept-IsLogged fs ws b b' e v = record {
  filters = ap (λ k. k.filters) e ∙ v.filters;
  filter_operators = ap (λ k. k.filter_operators) e ∙ v.filter_operators;
  writes = ap (λ k. k.writes) e ∙ v.writes;
  write_operators = ap (λ k. k.write_operators) e ∙ v.write_operators;
}

expressions-append :
    (es ds : List (Text × Text)) → expressions (es ++ ds) ≡ expressions es ++ expressions ds
expressions-append [] ds = refl
expressions-append ((op, e) ∷ es) ds = ap (λ l. e ∷ l) (expressions-append es ds)

operators_in-append :
    (es ds : List (Text × Text)) → operators_in (es ++ ds) ≡ operators_in es ++ operators_in ds
operators_in-append [] ds = refl
operators_in-append ((op, e) ∷ es) ds = ap (λ l. op ∷ l) (operators_in-append es ds)

-- The operator of an entry is kept behind the first one only.
grown :
    (entries : List (Text × Text)) (op e : Text)
    → (if ltb 1 (length (expressions entries ++ e ∷ []))
        then operators entries ++ op ∷ []
        else operators entries)
      ≡ operators (entries ++ (op, e) ∷ [])
grown [] op e = refl
grown (entry ∷ entries) op e =
    rw (operators_in-append entries ((op, e) ∷ []))
      (ground (arith, length-append (expressions entries) (e ∷ [])))

module _ {A : Type 0} (fs ws : List (Text × Text)) (b : Builder A) (v : IsLogged fs ws b) where
  push_filter-IsLogged : (op e : Text) → IsLogged (fs ++ (op, e) ∷ []) ws (push_filter op e b)
  unfolding push_filter
  push_filter-IsLogged op e = record {
    filters = ap (λ l. l ++ e ∷ []) v.filters ∙ sym (expressions-append fs ((op, e) ∷ []));
    filter_operators = rw (v.filters, v.filter_operators) (grown fs op e);
    writes = v.writes;
    write_operators = v.write_operators;
  }

  pub push_condition-IsLogged :
      (op e : Text) → IsLogged fs (ws ++ (op, e) ∷ []) (push_condition op e b)
  unfolding push_condition
  push_condition-IsLogged op e = record {
    filters = v.filters;
    filter_operators = v.filter_operators;
    writes = ap (λ l. l ++ e ∷ []) v.writes ∙ sym (expressions-append ws ((op, e) ∷ []));
    write_operators = rw (v.writes, v.write_operators) (grown ws op e);
  }

module _ {A : Type 0} (u : Unicode) (c : Converter A) where
  filtered-IsLogged :
      (op : Text) (fs ws : List (Text × Text)) (b : Builder A) (r : Builder A × Result Text)
      → conditions_of r.0 ≡ conditions_of b
      → IsLogged fs ws b
      → IsLogged (logged op fs r) ws (continue r (λ e b'. (push_filter op e b', ok tt))).0
  filtered-IsLogged op fs ws b (b', ok e) h v =
      push_filter-IsLogged fs ws b' (kept-IsLogged fs ws b b' h v) op e
  filtered-IsLogged op fs ws b (b', err e) h v = kept-IsLogged fs ws b b' h v

  conditioned-IsLogged :
      (op : Text) (fs ws : List (Text × Text)) (b : Builder A) (r : Builder A × Result Text)
      → conditions_of r.0 ≡ conditions_of b
      → IsLogged fs ws b
      → IsLogged fs (logged op ws r) (continue r (λ e b'. (push_condition op e b', ok tt))).0
  conditioned-IsLogged op fs ws b (b', ok e) h v =
      push_condition-IsLogged fs ws b' (kept-IsLogged fs ws b b' h v) op e
  conditioned-IsLogged op fs ws b (b', err e) h v = kept-IsLogged fs ws b b' h v

  projection-IsLogged :
      (fields : List Text) (fs ws : List (Text × Text)) (b : Builder A)
      → IsLogged fs ws b
      → IsLogged fs ws (add_projection u b fields)
  unfolding add_projection
  projection-IsLogged [] fs ws b v = v
  projection-IsLogged (field ∷ fields) fs ws b v =
      projection-IsLogged fields fs ws _
        (kept-IsLogged fs ws b _ (add_name_secure-Frames u b field) v)

  group-IsLogged :
      (op : Text) (k : Components A) (fs ws : List (Text × Text)) (b : Builder A)
      → IsLogged fs ws b
      → IsLogged (filters_after u c (group_filter op k) b fs) ws (add_group_filter op k b)
  unfolding add_group_filter
  group-IsLogged op k fs ws b v = elim (Bool-cases (text_eq k.filter_expression [])) [
    | inl empty ↦ rw (empty, add_group_filter) (kept-IsLogged fs ws b _ refl v)
    | inr some_filter ↦
        rw (some_filter, add_group_filter)
          (push_filter-IsLogged fs ws _ (kept-IsLogged fs ws b _ refl v) op _)
  ]

  keyed-IsLogged :
      (fs ws : List (Text × Text)) (b : Builder A) (r : Builder A × Result Text)
      → conditions_of r.0 ≡ conditions_of b
      → IsLogged fs ws b
      → IsLogged fs ws
          (continue r
            (λ e b'. (record b' { key_conditions = b'.key_conditions ++ e ∷ [] }, ok (tt {0})))).0
  keyed-IsLogged fs ws b (b', ok e) h v = kept-IsLogged fs ws b _ h v
  keyed-IsLogged fs ws b (b', err e) h v = kept-IsLogged fs ws b b' h v

  call-IsLogged :
      (m : Method A) (fs ws : List (Text × Text)) (b : Builder A)
      → IsLogged fs ws b
      → IsLogged (filters_after u c m b fs) (writes_after u c m b ws) (call u c m b)
  unfolding call add_key_condition add_filter_condition add_condition_expression_with_op
      reset_conditions ◌>>=◌
  call-IsLogged (key_condition field op value) fs ws b v =
      keyed-IsLogged fs ws b (build_condition u c field op value b)
        (build_condition-Frames u c field op value b) v
  call-IsLogged (filter_condition logical_op field op value) fs ws b v =
      filtered-IsLogged logical_op fs ws b (build_condition u c field op value b)
        (build_condition-Frames u c field op value b) v
  call-IsLogged (write_condition logical_op field op value) fs ws b v =
      conditioned-IsLogged logical_op fs ws b (build_condition u c field op value b)
        (build_condition-Frames u c field op value b) v
  call-IsLogged (group_filter logical_op k) fs ws b v = group-IsLogged logical_op k fs ws b v
  call-IsLogged (projection fields) fs ws b v = projection-IsLogged fields fs ws b v
  call-IsLogged (update_set field value) fs ws b v =
      kept-IsLogged fs ws b _ (add_update_set-Frames u c field value b) v
  call-IsLogged (update_add field value) fs ws b v =
      kept-IsLogged fs ws b _ (add_update_add-Frames u c field value b) v
  call-IsLogged (update_remove field) fs ws b v =
      kept-IsLogged fs ws b _ (add_update_remove-Frames u field b) v
  call-IsLogged (update_function field function args) fs ws b v =
      kept-IsLogged fs ws b _ (add_update_function-Frames u c field function args b) v
  call-IsLogged reset fs ws b v = record {
    filters = v.filters;
    filter_operators = v.filter_operators;
    writes = refl;
    write_operators = refl;
  }

  pub call_all-IsLogged :
      (ms : List (Method A)) (fs ws : List (Text × Text)) (b : Builder A)
      → IsLogged fs ws b
      → IsLogged (filters_of u c ms b fs) (writes_of u c ms b ws) (call_all u c ms b)
  unfolding call_all
  call_all-IsLogged [] fs ws b v = v
  call_all-IsLogged (m ∷ ms) fs ws b v =
      call_all-IsLogged ms (filters_after u c m b fs) (writes_after u c m b ws) (call u c m b)
        (call-IsLogged m fs ws b v)

pub new_builder-IsLogged : {A : Type 0} → IsLogged {A = A} [] [] new_builder
unfolding new_builder
new_builder-IsLogged = record {
  filters = refl;
  filter_operators = refl;
  writes = refl;
  write_operators = refl;
}

lengths :
    (entries : List (Text × Text)) → length (operators entries) ≡ length (expressions entries) - 1
lengths [] = refl
lengths (entry ∷ entries) = omega (arith, same entries)
  where
    same :
        (entries : List (Text × Text))
        → length (operators_in entries) ≡ length (expressions entries)
    same [] = refl
    same (entry ∷ entries) = ap suc (same entries)

pub IsLogged-IsShaped :
    {A : Type 0} (fs ws : List (Text × Text)) (b : Builder A) → IsLogged fs ws b → IsShaped b
IsLogged-IsShaped fs ws b v = record {
  filters = rw (v.filters, v.filter_operators) (lengths fs);
  writes = rw (v.writes, v.write_operators) (lengths ws);
}
