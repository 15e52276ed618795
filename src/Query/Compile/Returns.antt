-- ===== src/Query/Compile/Returns.antt =====
-- pkg/query/query.go: compiling a query never panics, and what is compiled has the settings in range.
use dynamorm.Base.{
  ℕ, ◌≤◌, ◌<◌, ◌≡◌, ◌≢◌, refl, Bool, true, ◌&&◌, Option, none, some, List, [], ◌∷◌, arith,
  Bool-cases, Option-cases, inl, inr, if◌then◌else◌,
}
use dynamorm.Base.Int.{ℤ, pos, negsuc, ltb_ℤ, max_int32}
use dynamorm.Base.Text.{Text, Unicode, codes, text_eq}
use dynamorm.Base.Text.Search.{text_eq_iff}
use dynamorm.Expr.Builder.{Builder, Converter, Result, ok, err, M, ◌>>=◌, continue, return}
use dynamorm.Expr.Builder.Condition.{add_key_condition}
use dynamorm.Expr.Builder.Build.{Components, add_filter_condition, add_projection, build}
use dynamorm.Expr.Builder.Built.{build-IsBuilt}
use dynamorm.Expr.Builder.Shape.{
  IsShaped, call, call-IsShaped, key_condition, filter_condition, projection,
}
use dynamorm.Query.Compile.{
  Compiled, clamp_int32, limit_of, add_key_conditions, add_filter_conditions, apply_parts,
  apply_scan_conditions, Plan, compile_with_explicit_index, compile_with_best_index,
  compile_operation, compiled_query, built_as, finish_query, compile, compiled_scan, finish_scan,
  compile_scan,
}
use dynamorm.Query.Keys.{
  Parts, normalize_condition, key_names_for_index, index_schema_by_name,
  partition_conditions_for_keys, has_partition_key_condition, select_best_index,
}
use dynamorm.Query.State.{
  ModelMetadata, Condition, Query, builder_of, new_query, QueryCall, query_calls,
}
use dynamorm.Query.State.Shaped.{new_query-IsReady, Readies, query_calls-Readies}

-- The settings of a compiled query: a limit fits in an int32 and is above 0, and a consistent read
-- is asked for only of the table itself.
pub record IsSound {A : Type 0} (k : Compiled A) : Type 0 where
  pub limited : (n : ℤ) → k.limit ≡ some n → (m : ℕ) × (n ≡ pos m) × (0 < m) × (m ≤ max_int32)
  pub consistent : k.consistent_read ≢ none → k.index_name ≡ []

abbrev pub IsSoundResult : {A : Type 0} → Result (Compiled A) → Type 0
IsSoundResult (ok k) = IsSound k
IsSoundResult (err e) = Unit

-- It does not panic: it returns an error or a sound query.
abbrev pub Returns : {A : Type 0} → Option (Result (Compiled A)) → Type 0
Returns {A} o = (r : Result (Compiled A)) × (o ≡ some r) × IsSoundResult r

limit_of_range : (l n : ℤ) → limit_of l ≡ some n → (m : ℕ) × (n ≡ pos m) × (0 < m) × (m ≤ max_int32)
unfolding limit_of clamp_int32
limit_of_range (pos l) n h = elim (Bool-cases (ltb_ℤ (pos 0) (pos l))) [
  | inl above ↦ elim (Bool-cases (ltb_ℤ (pos max_int32) (pos l))) [
    | inl large ↦ (max_int32, ground arith, ground arith, ground arith)
    | inr fits ↦ (l, ground arith, ground arith, ground arith)
  ]
  | inr zero ↦ ground arith
]
limit_of_range (negsuc l) n h = ground arith

consistent_table :
    (b : Bool) (name : Text) → (if b && text_eq name [] then some true else none) ≢ none → name ≡ []
consistent_table b name h = elim (Bool-cases (b && text_eq name [])) [
  | inl both ↦ (text_eq_iff name []).0 (ground arith)
  | inr other ↦ absurd (h (rw other refl))
]

-- The step keeps the conditions and their operators in step.
Keeps : {A X : Type 0} → M A X → Type 0
Keeps {A} m = (b : Builder A) → IsShaped b → IsShaped (m b).0

bind-Keeps :
    {A X Y : Type 0} (m : M A X) (f : X → M A Y)
    → Keeps m
    → ((x : X) → Keeps (f x))
    → Keeps (m >>= f)
unfolding ◌>>=◌ Keeps
bind-Keeps {A} {X} m f h k b v = go (m b) (h b v)
  where
    go : (r : Builder A × Result X) → IsShaped r.0 → IsShaped (continue r f).0
    go (b, ok x) v = k x b v
    go (b, err e) v = v

return-Keeps : {X : Type 0} (A : Type 0) (x : X) → Keeps {A = A} (return x)
unfolding Keeps
return-Keeps A x b v = v

module _ {A : Type 0} (u : Unicode) (equal_fold : Text → Text → Bool) (c : Converter A)
    (metadata : ModelMetadata) where
  add_key_conditions-Keeps :
      (conds : List Condition) → Keeps (add_key_conditions u equal_fold c metadata conds)
  unfolding add_key_conditions call Keeps
  add_key_conditions-Keeps [] = return-Keeps A tt
  add_key_conditions-Keeps (cond ∷ conds) =
      bind-Keeps (add_key_condition u c cond.field cond.operator cond.value) _
        (call-IsShaped u c (key_condition cond.field cond.operator cond.value))
        (λ x. add_key_conditions-Keeps conds)

  add_filter-Keeps :
      (field op : Text) (cond : Condition)
      → Keeps (add_filter_condition u c (codes "AND") field op cond.value)
  unfolding call Keeps
  add_filter-Keeps field op cond =
      call-IsShaped u c (filter_condition (codes "AND") field op cond.value)

  add_filter_conditions-Keeps :
      (conds : List Condition) → Keeps (add_filter_conditions u equal_fold c metadata conds)
  unfolding add_filter_conditions
  add_filter_conditions-Keeps [] = return-Keeps A tt
  add_filter_conditions-Keeps (cond ∷ conds) =
      bind-Keeps _ _ (add_filter-Keeps cond.field cond.operator cond)
        (λ x. add_filter_conditions-Keeps conds)

  apply_parts-Keeps : (parts : Parts) → Keeps (apply_parts u equal_fold c metadata parts)
  unfolding apply_parts
  apply_parts-Keeps (keys, filters) =
      bind-Keeps _ _ (add_key_conditions-Keeps keys) (λ x. add_filter_conditions-Keeps filters)

  apply_scan_conditions-Keeps :
      (conds : List Condition) → Keeps (apply_scan_conditions u equal_fold c metadata conds)
  unfolding apply_scan_conditions
  apply_scan_conditions-Keeps [] = return-Keeps A tt
  apply_scan_conditions-Keeps (cond ∷ conds) =
      let n = (normalize_condition metadata cond).condition in
      bind-Keeps _ _ (add_filter-Keeps n.field n.operator n)
        (λ x. apply_scan_conditions-Keeps conds)

  planned-Keeps :
      (m : M A (Unit {0})) (plan : Plan u equal_fold c metadata)
      → Keeps m
      → Keeps (m >>= λ x. return plan)
  planned-Keeps m plan h = bind-Keeps m _ h (λ x. return-Keeps A plan)

  compile_operation-Keeps : (q : Query A) → Keeps (compile_operation u equal_fold c metadata q)
  unfolding compile_operation compile_with_best_index compile_with_explicit_index
  compile_operation-Keeps q = elim (Bool-cases (text_eq q.index [])) [
    | inl unnamed ↦ elim (Option-cases (select_best_index u equal_fold metadata q.conditions)) [
      | inl absent ↦
          rw (unnamed, compile_operation, absent, compile_with_best_index)
            (planned-Keeps _ _ (apply_scan_conditions-Keeps q.conditions))
      | inr (idx, found) ↦
          rw (unnamed, compile_operation, found, compile_with_best_index)
            (planned-Keeps _ _ (apply_parts-Keeps _))
    ]
    | inr named ↦
        let keys = key_names_for_index metadata (index_schema_by_name metadata.indexes q.index) in
        let parts = partition_conditions_for_keys u equal_fold metadata keys q.conditions in
        elim (Bool-cases (has_partition_key_condition u equal_fold parts.0 keys.pk_attr)) [
          | inl has ↦
              rw (named, compile_operation, has, compile_with_explicit_index)
                (planned-Keeps _ _ (apply_parts-Keeps parts))
          | inr lacks ↦
              rw (named, compile_operation, lacks, compile_with_explicit_index)
                (planned-Keeps _ _ (apply_scan_conditions-Keeps q.conditions))
        ]
  ]

  built-Returns :
      (f : Components A → Compiled A)
      → ((k : Components A) → IsSound (f k))
      → (b : Builder A) (fields : List Text) → IsShaped b
      → Returns (built_as u equal_fold c metadata f (build (add_projection u b fields)))
  unfolding call
  built-Returns f h b fields v =
      let built =
        build-IsBuilt (add_projection u b fields) (call-IsShaped u c (projection fields) b v) in
      rw built.returned (ok (f built.components), refl, h built.components)

  finish_query-Returns :
      (q : Query A) (r : Builder A × Result (Plan u equal_fold c metadata))
      → IsShaped r.0
      → Returns (finish_query u equal_fold c metadata q r)
  finish_query-Returns q (b, err e) v = (err e, refl, tt)
  finish_query-Returns q (b, ok (operation, name)) v =
      built-Returns (compiled_query u equal_fold c metadata q (operation, name))
        (λ k. record {
          limited = limit_of_range q.limit;
          consistent = consistent_table q.consistent_read name;
        })
        b q.projection v

  finish_scan-Returns :
      (q : Query A) (r : Builder A × Result (Unit {0}))
      → IsShaped r.0
      → Returns (finish_scan u equal_fold c metadata q r)
  finish_scan-Returns q (b, err e) v = (err e, refl, tt)
  finish_scan-Returns q (b, ok x) v =
      built-Returns (compiled_scan u equal_fold c metadata q)
        (λ k. record {
          limited = limit_of_range q.limit;
          consistent = consistent_table q.consistent_read q.index;
        })
        b q.projection v

  -- Whether a query was made without a panic and compiles both ways.
  abbrev pub Compiles : Option (Query A) → Type 0
  Compiles none = ⊥
  Compiles (some q) =
      Returns (compile u equal_fold c metadata q) × Returns (compile_scan u equal_fold c metadata q)

  ready-Compiles : (o : Option (Query A)) → Readies o → Compiles o
  unfolding compile compile_scan Keeps
  ready-Compiles o (q, e, v) = rw e (
    finish_query-Returns q _ (compile_operation-Keeps q (builder_of q.builder) v),
    finish_scan-Returns q _ (apply_scan_conditions-Keeps q.conditions (builder_of q.builder) v),
  )

  -- After any calls on a new query, filter groups of any depth and calls that recorded an error
  -- included, none of which panics, `Compile` and `compileScan` do not panic either. What they
  -- return, if it is no error, has no limit or one from 1 to MaxInt32, and asks for a consistent
  -- read only of the table itself.
  pub query_calls-Compiles :
      (calls : List (QueryCall A)) → Compiles (query_calls u c metadata calls new_query)
  query_calls-Compiles calls =
      ready-Compiles _ (query_calls-Readies u c metadata calls new_query new_query-IsReady)
