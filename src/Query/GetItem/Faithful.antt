-- ===== src/Query/GetItem/Faithful.antt =====
-- pkg/query/query.go: when a query is read as one item, and by which key.
use mathlib.Core.Path.{subst}
use dynamorm.Base.{
  ◌≡◌, refl, sym, ap, ◌∙◌, ◌⊎◌, inl, inr, Bool, true, false, not, ◌&&◌, Option, none, some, List,
  [], ◌∷◌, All, Bool-cases, if◌then◌else◌,
}
use dynamorm.Base.Text.{Text, Unicode, text_eq}
use dynamorm.Base.Text.Search.{text_eq_iff}
use dynamorm.Expr.Builder.{Builder, Result, ok, err, new_builder}
use dynamorm.Expr.Builder.Build.{add_projection, build}
use dynamorm.Expr.Builder.Built.{build-IsBuilt, new_builder-IsShaped}
use dynamorm.Expr.Builder.Shape.{add_projection-IsShaped}
use dynamorm.Query.GetItem.{
  Found, GetRequest, Lookup, not_one, failed, get, get_item_key_names, or_value, on_partition_key,
  on_sort_key, is_equal, extract_loop, partition_only, both_entries, key_entries, lookup_key,
  requested, by_extracted, by_names, without_filters, compile_get_item,
}
use dynamorm.Query.Keys.{KeyNames}
use dynamorm.Query.State.{ModelMetadata, Condition, Query}
use dynamorm.Validation.Value.{Value}

-- The value of the last condition that passes a test.
abbrev pub last_value : (Condition → Bool) → List Condition → Option Value
last_value test [] = none
last_value test (cond ∷ conds) =
    or_value (last_value test conds) (if test cond then some cond.value else none)

or_value_assoc : (a b c : Option Value) → or_value (or_value a b) c ≡ or_value a (or_value b c)
or_value_assoc none b c = refl
or_value_assoc (some v) b c = refl

or_none : (o : Option Value) → or_value o none ≡ o
or_none none = refl
or_none (some v) = refl

module _ {A : Type 0} (u : Unicode) (equal_fold : Text → Text → Bool)
    (from_model : Text → Option Value) (to_attribute_value : Value → Result A)
    (metadata : ModelMetadata) where
  abbrev pk_test : KeyNames → Condition → Bool
  pk_test keys = on_partition_key u equal_fold from_model to_attribute_value metadata keys

  abbrev sk_test : KeyNames → Condition → Bool
  sk_test keys cond =
      not (pk_test keys cond)
      && on_sort_key u equal_fold from_model to_attribute_value metadata keys cond

  -- An equality on a key.
  abbrev pub IsKeyEquality : KeyNames → Condition → Type 0
  IsKeyEquality keys cond =
      (is_equal u equal_fold from_model to_attribute_value metadata cond ≡ true)
      × ((on_partition_key u equal_fold from_model to_attribute_value metadata keys cond ≡ true)
          ⊎ (on_sort_key u equal_fold from_model to_attribute_value metadata keys cond ≡ true))

  Extracts : KeyNames → Found → List Condition → Option Found → Type 0
  Extracts keys found conds none = Unit
  Extracts keys found conds (some f) =
      All (IsKeyEquality keys) conds
      × (f.pk ≡ or_value (last_value (pk_test keys) conds) found.pk)
      × (f.sk ≡ or_value (last_value (sk_test keys) conds) found.sk)

  step-Extracts :
      (keys : KeyNames) (found next : Found) (cond : Condition) (conds : List Condition)
      (o : Option Found)
      → IsKeyEquality keys cond
      → or_value (if pk_test keys cond then some cond.value else none) found.pk ≡ next.pk
      → or_value (if sk_test keys cond then some cond.value else none) found.sk ≡ next.sk
      → Extracts keys next conds o
      → Extracts keys found (cond ∷ conds) o
  unfolding Extracts
  step-Extracts keys found next cond conds none k e d h = tt
  step-Extracts keys found next cond conds (some f) k e d (a, pk, sk) = (
    (k, a),
    pk ∙ pushed (pk_test keys) found.pk next.pk e,
    sk ∙ pushed (sk_test keys) found.sk next.sk d,
  )
    where
      pushed :
          (test : Condition → Bool) (v w : Option Value)
          → or_value (if test cond then some cond.value else none) v ≡ w
          → or_value (last_value test conds) w ≡ or_value (last_value test (cond ∷ conds)) v
      pushed test v w e =
          ap (or_value (last_value test conds)) (sym e)
          ∙ sym (
              or_value_assoc (last_value test conds) (if test cond then some cond.value else none)
                v)

  extract_loop-Extracts :
      (keys : KeyNames) (found : Found) (conds : List Condition)
      → Extracts keys found conds
          (extract_loop u equal_fold from_model to_attribute_value metadata keys found conds)
  unfolding extract_loop Extracts
  extract_loop-Extracts keys found [] = (tt, refl, refl)
  extract_loop-Extracts keys found (cond ∷ conds) =
      elim (Bool-cases (is_equal u equal_fold from_model to_attribute_value metadata cond)) [
        | inl equal ↦ elim (Bool-cases (pk_test keys cond)) [
          | inl partition ↦
              rw (partition, extract_loop, equal)
                (step-Extracts keys found (record found { pk = some cond.value }) cond conds _
                  (equal, inl partition) (rw partition refl) (rw partition refl)
                  (extract_loop-Extracts keys (record found { pk = some cond.value }) conds))
          | inr other ↦
              elim (Bool-cases
                (on_sort_key u equal_fold from_model to_attribute_value metadata keys cond)) [
                  | inl sort ↦
                      rw (other, extract_loop, sort, equal)
                        (step-Extracts keys found (record found { sk = some cond.value }) cond conds
                          _ (equal, inr sort) (rw other refl) (rw (other, sort) refl)
                          (extract_loop-Extracts keys (record found { sk = some cond.value })
                            conds))
                  | inr neither ↦ rw (other, extract_loop, neither) tt
                ]
        ]
        | inr unequal ↦ elim (Bool-cases (pk_test keys cond)) [
          | inl partition ↦ rw (partition, extract_loop, unequal) tt
          | inr other ↦
              elim (Bool-cases
                (on_sort_key u equal_fold from_model to_attribute_value metadata keys cond)) [
                  | inl sort ↦ rw (other, extract_loop, sort, unequal) tt
                  | inr neither ↦ rw (other, extract_loop, neither) tt
                ]
        ]
      ]

  -- The key of these values: the entry of the partition key, and that of the sort key if the model
  -- has one.
  abbrev pub IsKeyOf : KeyNames → Value → Option Value → List (Text × A) → Type 0
  IsKeyOf keys pk sk key =
      (entry : A) × (to_attribute_value pk ≡ ok entry)
      × (((text_eq keys.sk_go [] ≡ true) × (key ≡ (keys.pk_attr, entry) ∷ []))
          ⊎ ((text_eq keys.sk_go [] ≡ false)
              × ((v : Value) × (sort : A) × (sk ≡ some v)
                  × (to_attribute_value v ≡ ok sort)
                  × (key ≡ (keys.pk_attr, entry) ∷ (keys.sk_attr, sort) ∷ []))))

  -- A query that is read as one item: on no index, without filters, all its conditions equalities on
  -- the key, whose parts have the values of the last of them, or else those of the model.
  pub record IsGet (q : Query A) (r : GetRequest A) : Type 0 where
    pub unindexed : q.index ≡ []
    pub unfiltered : q.builder ≡ none
    pub keys : KeyNames
    pub named : get_item_key_names metadata ≡ some keys
    pub equalities : All (IsKeyEquality keys) q.conditions
    pub pk : Value
    pub pk_is : or_value (last_value (pk_test keys) q.conditions) (from_model keys.pk_go) ≡ some pk
    pub key_is :
        IsKeyOf keys pk
          (if text_eq keys.sk_go []
            then last_value (sk_test keys) q.conditions
            else or_value (last_value (sk_test keys) q.conditions) (from_model keys.sk_go))
          r.key

  abbrev pub Gets : Query A → Option (Lookup A) → Type 0
  Gets q none = ⊥
  Gets q (some not_one) = Unit
  Gets q (some (failed e)) = Unit
  Gets q (some (get r)) = IsGet q r

  module _ (q : Query A) where
    -- The request for a key of these values.
    abbrev Requests :
        KeyNames → Value → Option Value → (List (Text × A) → Option (Lookup A)) → Type 0
    Requests keys pk sk next = (key : List (Text × A)) → IsKeyOf keys pk sk key → Gets q (next key)

    partition-Gets :
        (keys : KeyNames) (pk : Value) (sk : Option Value)
        (next : List (Text × A) → Option (Lookup A)) (r : Result A)
        → to_attribute_value pk ≡ r
        → text_eq keys.sk_go [] ≡ true
        → Requests keys pk sk next
        → Gets q (partition_only u equal_fold from_model to_attribute_value metadata keys r next)
    partition-Gets keys pk sk next (err e) h alone f = tt
    partition-Gets keys pk sk next (ok entry) h alone f = f _ (entry, h, inl (alone, refl))

    both-Gets :
        (keys : KeyNames) (pk sk : Value) (next : List (Text × A) → Option (Lookup A))
        (r s : Result A)
        → to_attribute_value pk ≡ r
        → to_attribute_value sk ≡ s
        → text_eq keys.sk_go [] ≡ false
        → Requests keys pk (some sk) next
        → Gets q (both_entries u equal_fold from_model to_attribute_value metadata keys r s next)
    both-Gets keys pk sk next (err e) s h k sorted f = tt
    both-Gets keys pk sk next (ok entry) (err e) h k sorted f = tt
    both-Gets keys pk sk next (ok entry) (ok other) h k sorted f =
        f _ (entry, h, inr (sorted, (sk, other, refl, k, refl)))

    entries-Gets :
        (keys : KeyNames) (alone : Bool) (pk : Value) (sk : Option Value)
        (next : List (Text × A) → Option (Lookup A))
        → text_eq keys.sk_go [] ≡ alone
        → Requests keys pk sk next
        → Gets q
            (key_entries u equal_fold from_model to_attribute_value metadata keys alone pk sk next)
    entries-Gets keys true pk sk next h f =
        partition-Gets keys pk sk next (to_attribute_value pk) refl h f
    entries-Gets keys false pk none next h f = tt
    entries-Gets keys false pk (some sk) next h f =
        both-Gets keys pk sk next (to_attribute_value pk) (to_attribute_value sk) refl refl h f

    lookup-Gets :
        (keys : KeyNames) (pk sk : Option Value) (next : List (Text × A) → Option (Lookup A))
        → ((v : Value) → pk ≡ some v → Requests keys v sk next)
        → Gets q (lookup_key u equal_fold from_model to_attribute_value metadata keys pk sk next)
    lookup-Gets keys none sk next f = tt
    lookup-Gets keys (some pk) sk next f =
        entries-Gets keys (text_eq keys.sk_go []) pk sk next refl (f pk refl)

    module _ (unindexed : q.index ≡ []) (unfiltered : q.builder ≡ none) where
      extracted-Gets :
          (keys : KeyNames)
          → get_item_key_names metadata ≡ some keys
          → (o : Option Found) → Extracts keys (record { pk = none; sk = none }) q.conditions o
          → Gets q (by_extracted u equal_fold from_model to_attribute_value metadata q keys o)
      unfolding Extracts
      extracted-Gets keys named none h = tt
      extracted-Gets keys named (some found) h =
          lookup-Gets keys _ _
            (λ key.
              requested u equal_fold from_model to_attribute_value metadata q key
                (build (add_projection u new_builder q.projection)))
            (λ pk pk_is key key_is.
              let built =
                build-IsBuilt {A = A} (add_projection u new_builder q.projection)
                  (add_projection-IsShaped u q.projection new_builder new_builder-IsShaped) in
              rw built.returned (record {
                unindexed = unindexed;
                unfiltered = unfiltered;
                keys = keys;
                named = named;
                equalities = h.0;
                pk = pk;
                pk_is =
                    ap (λ o. or_value o (from_model keys.pk_go)) (sym (h.1 ∙ or_none _)) ∙ pk_is;
                key_is =
                    subst
                      (λ o.
                        IsKeyOf keys pk
                          (if text_eq keys.sk_go [] then o else or_value o (from_model keys.sk_go))
                          key)
                      (h.2 ∙ or_none _) key_is;
              }))

      named-Gets :
          (o : Option KeyNames)
          → get_item_key_names metadata ≡ o
          → Gets q (by_names u equal_fold from_model to_attribute_value metadata q o)
      named-Gets none h = tt
      named-Gets (some keys) h =
          extracted-Gets keys h _
            (extract_loop-Extracts keys (record { pk = none; sk = none }) q.conditions)

    filters-Gets :
        (o : Option (Builder A))
        → q.builder ≡ o
        → q.index ≡ []
        → Gets q (without_filters u equal_fold from_model to_attribute_value metadata q o)
    filters-Gets (some b) h k = tt
    filters-Gets none h k = named-Gets k h (get_item_key_names metadata) refl

    -- `compileGetItem` never panics, and reads one item only for a query on no index and without
    -- filters, all of whose conditions are equalities on the partition key or the sort key. The key is
    -- that of the partition key and, if the model has one, of the sort key, and of nothing else; each
    -- has the value of the last condition on it, or else that of the model.
    pub compile_get_item-Gets :
        Gets q (compile_get_item u equal_fold from_model to_attribute_value metadata q)
    unfolding compile_get_item
    compile_get_item-Gets = elim (Bool-cases (text_eq q.index [])) [
      | inl plain ↦
          rw (plain, compile_get_item)
            (filters-Gets q.builder refl ((text_eq_iff q.index []).0 plain))
      | inr indexed ↦ rw (indexed, compile_get_item) tt
    ]
