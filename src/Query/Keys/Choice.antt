-- ===== src/Query/Keys/Choice.antt =====
-- pkg/query/query.go: the index that `selectBestIndex` finds, from pkg/index's analysis of the
-- conditions to its scores.
use mathlib.Core.List.{Mem, mem-cons_self, mem-cons_of_mem}
use dynamorm.Base.{
  ◌≡◌, ◌≢◌, refl, sym, ◌∙◌, Bool, true, false, Option, none, some, List, [], ◌∷◌, map, arith, All,
  All-map, ◌⊎◌, Bool-cases, inl, inr,
}
use dynamorm.Base.Text.{Text, Unicode, text_eq}
use dynamorm.Base.Text.Search.{text_eq_iff}
use dynamorm.Index.{IndexSchema, RequiredKeys, is_equality, select_optimal, analyze_conditions}
use dynamorm.Index as Selector
use dynamorm.Index.Analyze.{
  keys_of, first_equality, keys_of-first_equality, analyze_conditions-keys_of,
}
use dynamorm.Index.Best.{IsBestAt, IsSelected, select_optimal-IsSelected, select_optimal-none}
use dynamorm.Query.State.{ModelMetadata, Condition}
use dynamorm.Query.Keys.{index_condition, primary_index, select_best_index}

module _ (u : Unicode) (equal_fold : Text → Text → Bool) (metadata : ModelMetadata) where
  -- A condition of the query that is an equality on the partition key of the index.
  pub record IsServed (conditions : List Condition) (idx : IndexSchema) : Type 0 where
    pub by : Condition
    pub among : Mem by conditions
    pub equality : is_equality u equal_fold (index_condition metadata by) ≡ true
    pub on_key : idx.partition_key ≡ (index_condition metadata by).field

  abbrev pub seen : Condition → Selector.Condition
  seen cond = index_condition metadata cond

  first_equality-IsServed :
      (conds : List Condition) (idx : IndexSchema)
      → first_equality u equal_fold (map seen conds) ≢ []
      → idx.partition_key ≡ first_equality u equal_fold (map seen conds)
      → IsServed conds idx
  unfolding first_equality
  first_equality-IsServed [] idx = λ h e. absurd (h refl)
  first_equality-IsServed (cond ∷ conds) idx =
      elim (Bool-cases (is_equality u equal_fold (seen cond))) [
        | inl equal ↦
            rw (equal, first_equality)
              (λ h e. record { by = cond; among = mem-cons_self; equality = equal; on_key = e })
        | inr other ↦
            rw (other, first_equality)
              (λ h e.
                let s = first_equality-IsServed conds idx h e in
                record {
                  by = s.by;
                  among = mem-cons_of_mem cond s.among;
                  equality = s.equality;
                  on_key = s.on_key;
                })
      ]

  -- The index that `selectBestIndex` is to return.
  abbrev pub IsChosen : List Condition → Option IndexSchema → Type 0
  IsChosen conditions (some idx) =
      IsServed conditions idx
      × IsBestAt (keys_of u equal_fold [] (map seen conditions))
          (primary_index metadata ∷ metadata.indexes) idx
  IsChosen conditions none =
      (first_equality u equal_fold (map seen conditions) ≡ [])
      ⊎ All (λ i. i.partition_key ≢ first_equality u equal_fold (map seen conditions))
          (primary_index metadata ∷ metadata.indexes)

  chosen :
      (conditions : List Condition) (o : Option IndexSchema)
      → first_equality u equal_fold (map seen conditions) ≢ []
      → (keys_of u equal_fold [] (map seen conditions)).partition_key
        ≡ first_equality u equal_fold (map seen conditions)
      → IsSelected
          (keys_of u equal_fold [] (map seen conditions))
          (primary_index metadata ∷ metadata.indexes)
          o
      → IsChosen conditions o
  chosen conditions none h e s =
      inr (All-map _ _ (primary_index metadata ∷ metadata.indexes) (λ i n m. n (m ∙ sym e)) s)
  chosen conditions (some idx) h e s = (first_equality-IsServed conditions idx h (s.serves ∙ e), s)

  -- Of a query whose conditions have names, `selectBestIndex` returns the first of the table's own
  -- index and the indexes of the model with the highest score for the keys of its conditions, and
  -- some condition is an equality on the partition key of that index. It returns none only if
  -- no condition is an equality, or no index has the field of the first equality as partition key.
  pub select_best_index-IsChosen :
      (conditions : List Condition)
      → All (λ cond. cond.field ≢ []) (map seen conditions)
      → IsChosen conditions (select_best_index u equal_fold metadata conditions)
  unfolding select_best_index
  select_best_index-IsChosen conditions h =
      let analysed = analyze_conditions-keys_of u equal_fold (map seen conditions) h in
      let key = keys_of-first_equality u equal_fold [] (map seen conditions) in
      elim (Bool-cases (text_eq (first_equality u equal_fold (map seen conditions)) [])) [
        | inl empty ↦ rw analysed (
            rw
              (select_optimal-none (primary_index metadata ∷ metadata.indexes)
                (keys_of u equal_fold [] (map seen conditions)) (key ∙ (text_eq_iff _ []).0 empty))
              (inl ((text_eq_iff _ []).0 empty)))
        | inr found ↦ rw analysed (
            chosen conditions
              (select_optimal (primary_index metadata ∷ metadata.indexes)
                (keys_of u equal_fold [] (map seen conditions)))
              (nonempty found) key
              (select_optimal-IsSelected (primary_index metadata ∷ metadata.indexes)
                (keys_of u equal_fold [] (map seen conditions))
                (λ e. nonempty found (sym key ∙ e))))
      ]
    where
      nonempty : {t : Text} → text_eq t [] ≡ false → t ≢ []
      nonempty {t} h e = ground (arith, text_eq_iff t [])
