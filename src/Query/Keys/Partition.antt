-- ===== src/Query/Keys/Partition.antt =====
-- pkg/query/query.go: no condition is lost between the conditions on keys and the filters, and which
-- of them reach the keys.
use mathlib.Core.List.{append_assoc, append-nil}
use Prim.Native.String.{String}
use dynamorm.Base.{
  ◌≡◌, refl, sym, ap, ◌∙◌, ◌⊎◌, inl, inr, Bool, true, false, any, ◌||◌, List, [], ◌∷◌, ◌++◌, map,
  arith, Bool-cases,
}
use dynamorm.Base.Text.{Text, Unicode, codes, text_eq, trim_space, upper}
use dynamorm.Base.Text.Search.{text_eq_iff}
use dynamorm.Index.{one_of}
use dynamorm.Query.State.{ModelMetadata, Condition}
use dynamorm.Query.Keys.{
  KeyNames, Parts, normalize_condition, key_operators, condition_names, is_partition_key,
  is_sort_key, is_key, partition_step, partition_loop, partition_conditions_for_keys, to_keys,
  to_filters,
}

-- The condition under the name of its attribute.
abbrev pub normal : ModelMetadata → Condition → Condition
normal metadata cond = (normalize_condition metadata cond).condition

abbrev pub IsOneOf : Text → List String → Type 0
IsOneOf t [] = ⊥
IsOneOf t (w ∷ ws) = (t ≡ codes w) ⊎ IsOneOf t ws

one_of-IsOneOf : (t : Text) (ws : List String) → one_of t ws ≡ true → IsOneOf t ws
one_of-IsOneOf t [] h = cc
one_of-IsOneOf t (w ∷ ws) h = elim (Bool-cases (text_eq t (codes w))) [
  | inl same ↦ inl ((text_eq_iff t (codes w)).0 same)
  | inr other ↦
      inr (one_of-IsOneOf t ws (ap (λ b. b || any (λ n. text_eq t (codes n)) ws) (sym other) ∙ h))
]

IsOneOf-one_of : (t : Text) (ws : List String) → IsOneOf t ws → one_of t ws ≡ true
IsOneOf-one_of t [] h = absurd h
IsOneOf-one_of t (w ∷ ws) (inl same) = rw ((text_eq_iff t (codes w)).1 same) refl
IsOneOf-one_of t (w ∷ ws) (inr later) = ground (arith, IsOneOf-one_of t ws later)

module _ (u : Unicode) (equal_fold : Text → Text → Bool) (metadata : ModelMetadata)
    (keys : KeyNames) where
  -- The operator, trimmed and in capitals.
  abbrev operator_of : Condition → Text
  operator_of cond = upper u (trim_space (normal metadata cond).operator)

  abbrev on_partition : Condition → Bool
  on_partition cond =
      is_partition_key u equal_fold keys (condition_names u equal_fold metadata keys cond)

  abbrev on_sort : Condition → Bool
  on_sort cond = is_sort_key u equal_fold keys (condition_names u equal_fold metadata keys cond)

  -- A condition that a key condition of DynamoDB can say: an equality on the partition key, or a
  -- comparison, a range or a prefix on the sort key.
  abbrev pub SaysKey : Condition → Type 0
  SaysKey cond =
      ((on_partition cond ≡ true) × (operator_of cond ≡ codes "="))
      ⊎ ((on_partition cond ≡ false)
          × (on_sort cond ≡ true)
          × IsOneOf (operator_of cond)
              ("=" ∷ "<" ∷ "<=" ∷ ">" ∷ ">=" ∷ "BETWEEN" ∷ "BEGINS_WITH" ∷ []))

  -- The conditions on keys and the filters, each list in the order of the conditions, and together
  -- every one of them once.
  pub data Splits : List Condition → List Condition → List Condition → Type 0 where
    nothing : Splits [] [] []
    key :
        {cond : Condition} {ks fs conds : List Condition}
        → SaysKey cond
        → Splits ks fs conds
        → Splits (cond ∷ ks) fs (cond ∷ conds)
    filter :
        {cond : Condition} {ks fs conds : List Condition}
        → (SaysKey cond → ⊥)
        → Splits ks fs conds
        → Splits ks (cond ∷ fs) (cond ∷ conds)

  -- The parts behind those that were put aside before.
  pub record IsPartitioned (before : Parts) (conditions : List Condition) (parts : Parts)
      : Type 0 where
    pub on_keys : List Condition
    pub others : List Condition
    pub splits : Splits on_keys others conditions
    pub parts_are :
        parts
        ≡ (before.0 ++ map (normal metadata) on_keys, before.1 ++ map (normal metadata) others)

  -- Where a step puts a condition.
  abbrev Puts : Condition → Parts → Parts → Type 0
  Puts cond before after =
      (SaysKey cond × (after ≡ to_keys (normal metadata cond) before))
      ⊎ ((SaysKey cond → ⊥) × (after ≡ to_filters (normal metadata cond) before))

  module _ (cond : Condition) (before : Parts) where
    abbrev stepped : Parts
    stepped = partition_step u equal_fold metadata keys cond before

    partition_equal :
        on_partition cond ≡ true
        → text_eq (operator_of cond) (codes "=") ≡ true
        → stepped ≡ to_keys (normal metadata cond) before
    unfolding partition_step is_key
    partition_equal h k = rw (h, partition_step, k) refl

    partition_unequal :
        on_partition cond ≡ true
        → text_eq (operator_of cond) (codes "=") ≡ false
        → stepped ≡ to_filters (normal metadata cond) before
    unfolding partition_step is_key
    partition_unequal h k = rw (h, partition_step, k) refl

    sort_listed :
        on_partition cond ≡ false
        → on_sort cond ≡ true
        → one_of (operator_of cond) key_operators ≡ true
        → stepped ≡ to_keys (normal metadata cond) before
    unfolding partition_step is_key
    sort_listed h k l = rw (h, partition_step, k, l) refl

    sort_unlisted :
        on_partition cond ≡ false
        → on_sort cond ≡ true
        → one_of (operator_of cond) key_operators ≡ false
        → stepped ≡ to_filters (normal metadata cond) before
    unfolding partition_step is_key
    sort_unlisted h k l = rw (h, partition_step, k, l) refl

    on_neither :
        on_partition cond ≡ false
        → on_sort cond ≡ false
        → stepped ≡ to_filters (normal metadata cond) before
    unfolding partition_step is_key
    on_neither h k = rw (h, partition_step, k) refl

    not_partition :
        on_partition cond ≡ true → text_eq (operator_of cond) (codes "=") ≡ false → SaysKey cond → ⊥
    not_partition h k (inl both) = let e = (text_eq_iff _ _).1 both.1 in cc
    not_partition h k (inr later) = let e = later.0 in cc

    not_sort :
        on_partition cond ≡ false
        → (on_sort cond ≡ true → one_of (operator_of cond) key_operators ≡ false)
        → SaysKey cond
        → ⊥
    not_sort h k (inl both) = let e = both.0 in cc
    not_sort h k (inr (other, sort, listed)) =
        let e = k sort in let d = IsOneOf-one_of (operator_of cond) key_operators listed in cc

    partition_step-Puts : Puts cond before stepped
    partition_step-Puts = elim (Bool-cases (on_partition cond)) [
      | inl partition ↦ elim (Bool-cases (text_eq (operator_of cond) (codes "="))) [
        | inl equal ↦
            inl (inl (partition, (text_eq_iff _ _).0 equal), partition_equal partition equal)
        | inr unequal ↦ inr (not_partition partition unequal, partition_unequal partition unequal)
      ]
      | inr other ↦ elim (Bool-cases (on_sort cond)) [
        | inr neither ↦ inr (not_sort other (λ sort. let e = sort in cc), on_neither other neither)
        | inl sort ↦ elim (Bool-cases (one_of (operator_of cond) key_operators)) [
          | inl listed ↦ inl (
            inr (other, sort, one_of-IsOneOf (operator_of cond) key_operators listed),
            sort_listed other sort listed,
          )
          | inr unlisted ↦ inr (not_sort other (λ s. unlisted), sort_unlisted other sort unlisted)
        ]
      ]
    ]

    after_step :
        (after : Parts) (conds : List Condition) (parts : Parts)
        → Puts cond before after
        → IsPartitioned after conds parts
        → IsPartitioned before (cond ∷ conds) parts
    after_step after conds parts (inl (says, e)) v = record {
      on_keys = cond ∷ v.on_keys;
      others = v.others;
      splits = key says v.splits;
      parts_are =
          v.parts_are
          ∙ rw e (
              ap (λ l. (l, before.1 ++ map (normal metadata) v.others))
                (append_assoc before.0 (normal metadata cond ∷ [])
                  (map (normal metadata) v.on_keys)));
    }
    after_step after conds parts (inr (says_not, e)) v = record {
      on_keys = v.on_keys;
      others = cond ∷ v.others;
      splits = filter says_not v.splits;
      parts_are =
          v.parts_are
          ∙ rw e (
              ap (λ l. (before.0 ++ map (normal metadata) v.on_keys, l))
                (append_assoc before.1 (normal metadata cond ∷ [])
                  (map (normal metadata) v.others)));
    }

  partition_loop-IsPartitioned :
      (conditions : List Condition) (before : Parts)
      → IsPartitioned before conditions
          (partition_loop u equal_fold metadata keys before conditions)
  unfolding partition_loop
  partition_loop-IsPartitioned [] before = record {
    on_keys = [];
    others = [];
    splits = nothing;
    parts_are = rw (append-nil before.0, append-nil before.1) refl;
  }
  partition_loop-IsPartitioned (cond ∷ conds) before =
      after_step cond before (stepped cond before) conds _ (partition_step-Puts cond before)
        (partition_loop-IsPartitioned conds (stepped cond before))

  -- Each condition of a query is put, under the name of its attribute, into exactly one of the two
  -- lists of `partitionConditionsForKeys`, each in the order of the query. The conditions on keys are
  -- those that are on the partition key with the operator =, or on the sort key alone with one of =, <,
  -- <=, >, >=, BETWEEN and BEGINS_WITH, trimmed and in any letter case; the filters are all the others.
  pub partition_conditions_for_keys-IsPartitioned :
      (conditions : List Condition)
      → IsPartitioned
          ([], [])
          conditions
          (partition_conditions_for_keys u equal_fold metadata keys conditions)
  unfolding partition_conditions_for_keys
  partition_conditions_for_keys-IsPartitioned conditions =
      partition_loop-IsPartitioned conditions ([], [])
