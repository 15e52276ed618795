-- ===== src/Index/Analyze.antt =====
-- pkg/index/selector.go: the keys that `AnalyzeConditions` finds, without its loop state.
use dynamorm.Base.{
  ◌≡◌, ◌≢◌, refl, Bool, true, false, Option, none, some, List, [], ◌∷◌, ◌++◌, arith, All, All-map,
  Bool-cases, inl, inr, if◌then◌else◌,
}
use dynamorm.Base.Text.{Text, Unicode, text_eq}
use dynamorm.Base.Text.Search.{text_eq_iff}
use dynamorm.Index.{
  RequiredKeys, Condition, normalize_operator, is_equality, analyze_loop, pending_sort, finish,
  set_sort, set_partition, analyze_conditions,
}

-- The first condition on another field.
pub first_other : Text → List Condition → Option Condition
first_other key [] = none
first_other key (cond ∷ conds) = if text_eq cond.field key then first_other key conds else some cond

abbrev no_keys : RequiredKeys
no_keys = record { partition_key = []; sort_key = []; sort_key_op = [] }

abbrev partition_only : Text → RequiredKeys
partition_only key = record { partition_key = key; sort_key = []; sort_key_op = [] }

module _ (u : Unicode) (equal_fold : Text → Text → Bool) where
  sorted_by : Text → Option Condition → RequiredKeys → RequiredKeys
  sorted_by key none r = r
  sorted_by key (some cond) r = record {
    partition_key = key;
    sort_key = cond.field;
    sort_key_op = normalize_operator u cond.operator;
  }

  -- The partition key is the field of the first equality. The sort key is the first condition on
  -- another field behind it, or else the first such one before it.
  pub keys_of : List Condition → List Condition → RequiredKeys
  unfolding first_other sorted_by
  keys_of before [] = no_keys
  keys_of before (cond ∷ conds) =
      let later = keys_of (before ++ cond ∷ []) conds in
      if is_equality u equal_fold cond
      then sorted_by cond.field (first_other cond.field conds)
          (sorted_by cond.field (first_other cond.field before) (partition_only cond.field))
      else later

  HasField : Condition → Type 0
  HasField cond = text_eq cond.field [] ≡ false

  set_partition_kept :
      (cond : Condition) (r : RequiredKeys)
      → text_eq r.partition_key [] ≡ false
      → set_partition u equal_fold cond r ≡ r
  unfolding set_partition
  set_partition_kept cond r h =
      rw (h, set_partition)
        (elim (Bool-cases (is_equality u equal_fold cond)) [
          | inl eq ↦ rw eq refl
          | inr ne ↦ rw ne refl
        ])

  settled :
      (r : RequiredKeys) (pending conds : List Condition)
      → text_eq r.partition_key [] ≡ false
      → text_eq r.sort_key [] ≡ false
      → analyze_loop u equal_fold r pending conds ≡ (r, pending)
  unfolding analyze_loop
  settled r pending [] h k = refl
  settled r pending (cond ∷ conds) h k =
      rw (set_partition_kept cond r h) (rw (h, k) (settled r pending conds h k))

  keyed :
      (key : Text) (pending conds : List Condition)
      → text_eq key [] ≡ false
      → All HasField conds
      → analyze_loop u equal_fold (partition_only key) pending conds
        ≡ (sorted_by key (first_other key conds) (partition_only key), pending)
  unfolding analyze_loop sorted_by first_other HasField text_eq
  keyed key pending [] h a = refl
  keyed key pending (cond ∷ conds) h a = rw (set_partition_kept cond (partition_only key) h) (
      rw h (elim (Bool-cases (text_eq cond.field key)) [
        | inl same ↦ rw same (keyed key pending conds h a.1)
        | inr other ↦ rw other (
            unfold set_sort in
            settled (set_sort u equal_fold cond (partition_only key)) pending conds h a.0)
      ]))

  first_other-HasField :
      (key : Text) (conds : List Condition) (s : Condition)
      → All HasField conds
      → first_other key conds ≡ some s
      → HasField s
  unfolding first_other HasField
  first_other-HasField key [] s a e = cc
  first_other-HasField key (cond ∷ conds) s a e =
      ground (arith, first_other-HasField key conds s a.1)

  pending_sort-first_other :
      (key : Text) (pending : List Condition)
      → pending_sort u equal_fold (partition_only key) pending
        ≡ sorted_by key (first_other key pending) (partition_only key)
  unfolding pending_sort sorted_by first_other set_sort
  pending_sort-first_other key [] = refl
  pending_sort-first_other key (cond ∷ pending) = elim (Bool-cases (text_eq cond.field key)) [
    | inl same ↦ rw same (pending_sort-first_other key pending)
    | inr other ↦ rw other refl
  ]

  finish-sorted :
      (key : Text) (before : List Condition) (o : Option Condition)
      → text_eq key [] ≡ false
      → ((s : Condition) → o ≡ some s → HasField s)
      → finish u equal_fold (sorted_by key o (partition_only key), before)
        ≡ sorted_by key o (sorted_by key (first_other key before) (partition_only key))
  unfolding finish sorted_by HasField text_eq
  finish-sorted key before none h f = rw h (pending_sort-first_other key before)
  finish-sorted key before (some s) h f = rw (f s refl) refl

  first_step :
      (cond : Condition) (before conds : List Condition)
      → is_equality u equal_fold cond ≡ true
      → HasField cond
      → analyze_loop u equal_fold no_keys before (cond ∷ conds)
        ≡ analyze_loop u equal_fold (partition_only cond.field) before conds
  unfolding analyze_loop set_partition HasField
  first_step cond before conds eq a =
      let empty : text_eq [] [] ≡ true = (text_eq_iff [] []).1 refl in
      let self : text_eq cond.field cond.field ≡ true =
        (text_eq_iff cond.field cond.field).1 refl in
      rw (eq, empty, a, self) (rw empty refl)

  skip_step :
      (cond : Condition) (before conds : List Condition)
      → is_equality u equal_fold cond ≡ false
      → analyze_loop u equal_fold no_keys before (cond ∷ conds)
        ≡ analyze_loop u equal_fold no_keys (before ++ cond ∷ []) conds
  unfolding analyze_loop set_partition
  skip_step cond before conds ne =
      let empty : text_eq [] [] ≡ true = (text_eq_iff [] []).1 refl in rw (ne, empty) refl

  scan :
      (before conds : List Condition)
      → All HasField conds
      → finish u equal_fold (analyze_loop u equal_fold no_keys before conds) ≡ keys_of before conds
  unfolding finish analyze_loop keys_of text_eq HasField
  scan before [] a = refl
  scan before (cond ∷ conds) a = elim (Bool-cases (is_equality u equal_fold cond)) [
    | inl eq ↦ rw eq (
        rw (first_step cond before conds eq a.0) (
          rw (keyed cond.field before conds a.0 a.1) (
            finish-sorted cond.field before (first_other cond.field conds) a.0
              (λ s. first_other-HasField cond.field conds s a.1))))
    | inr ne ↦ rw (ne, skip_step cond before conds ne) (scan (before ++ cond ∷ []) conds a.1)
  ]

  nonempty : (cond : Condition) → cond.field ≢ [] → HasField cond
  unfolding HasField
  nonempty cond h = elim (Bool-cases (text_eq cond.field [])) [
    | inl e ↦ absurd (h ((text_eq_iff cond.field []).0 e))
    | inr e ↦ e
  ]

  -- Of conditions whose fields are not empty, `AnalyzeConditions` finds as partition key the field
  -- of the first equality, and as sort key, with its operator, the field of the first later
  -- condition on another field, or else of the first such condition in front; without an equality
  -- it finds no key.
  pub analyze_conditions-keys_of :
      (conditions : List Condition)
      → All (λ cond. cond.field ≢ []) conditions
      → analyze_conditions u equal_fold conditions ≡ keys_of [] conditions
  unfolding analyze_conditions
  analyze_conditions-keys_of conditions h = scan [] conditions (All-map _ _ conditions nonempty h)

  -- The field of the first equality, or nothing.
  unfoldable pub first_equality : List Condition → Text
  first_equality [] = []
  first_equality (cond ∷ conds) =
      if is_equality u equal_fold cond then cond.field else first_equality conds

  sorted_by-partition_key :
      (key : Text) (o : Option Condition) (r : RequiredKeys)
      → r.partition_key ≡ key
      → (sorted_by key o r).partition_key ≡ key
  unfolding sorted_by
  sorted_by-partition_key key none r h = h
  sorted_by-partition_key key (some cond) r h = refl

  pub keys_of-first_equality :
      (before conds : List Condition) → (keys_of before conds).partition_key ≡ first_equality conds
  unfolding keys_of first_equality
  keys_of-first_equality before [] = refl
  keys_of-first_equality before (cond ∷ conds) = elim (Bool-cases (is_equality u equal_fold cond)) [
    | inl eq ↦ rw eq (
        sorted_by-partition_key cond.field _ _ (
          sorted_by-partition_key cond.field (first_other cond.field before)
            (partition_only cond.field) refl))
    | inr ne ↦ rw ne (keys_of-first_equality (before ++ cond ∷ []) conds)
  ]
