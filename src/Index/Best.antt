-- ===== src/Index/Best.antt =====
-- pkg/index/selector.go: the index that `SelectOptimal` returns is the first best one.
use mathlib.Core.List.{append_assoc, append-nil}
use dynamorm.Base.{
  ◌≤◌, ◌<◌, ◌≡◌, ◌≢◌, refl, ap, Option, none, some, List, [], ◌∷◌, ◌++◌, arith, All, All-append,
  All-map, Bool-cases, inl, inr, ltb,
}
use dynamorm.Base.Text.{text_eq}
use dynamorm.Base.Text.Search.{text_eq_iff}
use dynamorm.Index.{IndexSchema, RequiredKeys, score_index, select_loop, select_optimal}

-- Where an index stands among the others by its score.
pub record IsBestAt (required : RequiredKeys) (indexes : List IndexSchema) (idx : IndexSchema)
    : Type 0 where
  pub before : List IndexSchema
  pub after : List IndexSchema
  pub place : indexes ≡ before ++ idx ∷ after
  pub serves : idx.partition_key ≡ required.partition_key
  pub above : All (λ i. score_index i required < score_index idx required) before
  pub at_least : All (λ i. score_index i required ≤ score_index idx required) after

abbrev pub IsSelected : RequiredKeys → List IndexSchema → Option IndexSchema → Type 0
IsSelected required indexes none = All (λ i. i.partition_key ≢ required.partition_key) indexes
IsSelected required indexes (some idx) = IsBestAt required indexes idx

module _ (required : RequiredKeys) where
  score_positive :
      (idx : IndexSchema)
      → 0 < score_index idx required
      → idx.partition_key ≡ required.partition_key
  unfolding score_index
  score_positive idx h = ground (arith, text_eq_iff idx.partition_key required.partition_key)

  score_zero :
      (idx : IndexSchema)
      → score_index idx required ≡ 0
      → idx.partition_key ≢ required.partition_key
  unfolding score_index
  score_zero idx h e = ground (arith, text_eq_iff idx.partition_key required.partition_key)

  from_some :
      (before after rest : List IndexSchema) (idx : IndexSchema)
      → 0 < score_index idx required
      → All (λ i. score_index i required < score_index idx required) before
      → All (λ i. score_index i required ≤ score_index idx required) after
      → IsSelected required
          (before ++ idx ∷ (after ++ rest))
          (select_loop required (some idx) (score_index idx required) rest)
  unfolding select_loop
  from_some before after [] idx p a b = record {
    before = before;
    after = after;
    place = ap (λ l. before ++ idx ∷ l) (append-nil after);
    serves = score_positive idx p;
    above = a;
    at_least = b;
  }
  from_some before after (i ∷ rest) idx p a b =
      elim (Bool-cases (ltb (score_index idx required) (score_index i required))) [
        | inl better ↦
            rw (better, select_loop)
              (rw (← (append_assoc before (idx ∷ after) (i ∷ rest))) (
                from_some (before ++ idx ∷ after) [] rest i (ground arith)
                  (All-append _ before (idx ∷ after) (All-map _ _ before (λ j h. ground arith) a)
                    (ground arith, All-map _ _ after (λ j h. ground arith) b))
                  tt))
        | inr other ↦
            rw (other, select_loop)
              (rw (← (append_assoc after (i ∷ []) rest)) (
                from_some before (after ++ i ∷ []) rest idx p a
                  (All-append _ after (i ∷ []) b (ground arith, tt))))
      ]

  from_none :
      (seen rest : List IndexSchema)
      → All (λ i. score_index i required ≡ 0) seen
      → IsSelected required (seen ++ rest) (select_loop required none 0 rest)
  unfolding select_loop
  from_none seen [] z = rw (append-nil seen) (All-map _ _ seen score_zero z)
  from_none seen (i ∷ rest) z = elim (Bool-cases (ltb 0 (score_index i required))) [
    | inl better ↦
        rw (better, select_loop)
          (from_some seen [] rest i (ground arith) (All-map _ _ seen (λ j h. ground arith) z) tt)
    | inr other ↦
        rw (other, select_loop)
          (rw (← (append_assoc seen (i ∷ []) rest))
            (from_none (seen ++ i ∷ []) rest (All-append _ seen (i ∷ []) z (ground arith, tt))))
  ]

-- For a required partition key that is not empty: `SelectOptimal` returns nothing exactly when no
-- index has that partition key, and otherwise an index of the list that has it, whose score is above
-- that of every index before it and at least that of every index after it.
pub select_optimal-IsSelected :
    (indexes : List IndexSchema) (required : RequiredKeys)
    → required.partition_key ≢ []
    → IsSelected required indexes (select_optimal indexes required)
unfolding select_optimal
select_optimal-IsSelected indexes required h =
    elim (Bool-cases (text_eq required.partition_key [])) [
      | inl empty ↦ absurd (h ((text_eq_iff required.partition_key []).0 empty))
      | inr other ↦ rw (other, select_optimal) (from_none required [] indexes tt)
    ]

pub select_optimal-none :
    (indexes : List IndexSchema) (required : RequiredKeys)
    → required.partition_key ≡ []
    → select_optimal indexes required ≡ none
unfolding select_optimal
select_optimal-none indexes required h =
    rw ((text_eq_iff required.partition_key []).1 h, select_optimal) refl
