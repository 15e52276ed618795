-- ===== src/Index.antt =====
-- pkg/index/selector.go: which index serves a query. strings.EqualFold is a parameter.
pub mod Best
pub mod Analyze
use Prim.Native.String.{String}
use dynamorm.Base.{
  ℕ, ◌+◌, Bool, true, false, not, ◌&&◌, ◌||◌, Option, none, some, List, [], ◌∷◌, ◌++◌, any, ltb,
  if◌then◌else◌,
}
use dynamorm.Base.Text.{Text, Unicode, codes, text_eq, lower, upper}

-- core.IndexSchema
pub record IndexSchema : Type 0 where
  pub name : Text
  pub kind : Text
  pub partition_key : Text
  pub sort_key : Text
  pub projection_type : Text
  pub projected_fields : List Text

pub record RequiredKeys : Type 0 where
  pub partition_key : Text
  pub sort_key : Text
  pub sort_key_op : Text

-- `Condition`, without the value, which nothing here reads.
pub record Condition : Type 0 where
  pub field : Text
  pub operator : Text

abbrev pub one_of : Text → List String → Bool
one_of t names = any (λ n. text_eq t (codes n)) names

-- What the operator on a matching sort key adds.
sort_score : Text → ℕ
sort_score op =
    if text_eq op (codes "=")
    then 50
    else if text_eq op (codes "begins_with")
    then 40
    else if one_of op ("between" ∷ "<" ∷ "<=" ∷ ">" ∷ ">=" ∷ [])
    then 30
    else 0

unfoldable pub score_index : IndexSchema → RequiredKeys → ℕ
unfolding sort_score
score_index idx required =
    if not (text_eq idx.partition_key required.partition_key)
    then 0
    else 100
      + (if not (text_eq required.sort_key []) && text_eq idx.sort_key required.sort_key
          then sort_score required.sort_key_op
          else 0)
      + (if text_eq idx.kind (codes "GSI") then 10 else 0)
      + (if text_eq idx.projection_type (codes "ALL") then 5 else 0)

-- The loop over the indexes, with the best one so far and its score.
select_loop : RequiredKeys → Option IndexSchema → ℕ → List IndexSchema → Option IndexSchema
select_loop required best best_score [] = best
select_loop required best best_score (idx ∷ indexes) =
    let better = ltb best_score (score_index idx required) in
    select_loop required (if better then some idx else best)
      (if better then score_index idx required else best_score) indexes

-- `SelectOptimal`; it returns no error. A best index has a score above 0, so the last test of the
-- code adds nothing to that of `best` against nil.
unfoldable pub select_optimal : List IndexSchema → RequiredKeys → Option IndexSchema
unfolding select_loop
select_optimal indexes required =
    if text_eq required.partition_key [] then none else select_loop required none 0 indexes

unfoldable pub normalize_operator : Unicode → Text → Text
normalize_operator u op =
    let o = upper u op in
    if one_of o ("EQ" ∷ "=" ∷ [])
    then codes "="
    else if one_of o ("LT" ∷ "<" ∷ [])
    then codes "<"
    else if one_of o ("LE" ∷ "<=" ∷ [])
    then codes "<="
    else if one_of o ("GT" ∷ ">" ∷ [])
    then codes ">"
    else if one_of o ("GE" ∷ ">=" ∷ [])
    then codes ">="
    else if one_of o ("BEGINS_WITH" ∷ [])
    then codes "begins_with"
    else if one_of o ("BETWEEN" ∷ [])
    then codes "between"
    else lower u op

module _ (u : Unicode) (equal_fold : Text → Text → Bool) where
  unfoldable pub is_equality : Condition → Bool
  is_equality cond = text_eq cond.operator (codes "=") || equal_fold cond.operator (codes "eq")

  set_partition : Condition → RequiredKeys → RequiredKeys
  set_partition cond r =
      if is_equality cond && text_eq r.partition_key []
      then record r { partition_key = cond.field }
      else r

  set_sort : Condition → RequiredKeys → RequiredKeys
  set_sort cond r = record r {
    sort_key = cond.field;
    sort_key_op = normalize_operator u cond.operator;
  }

  -- The loop over the conditions, with the keys so far and the conditions met before the partition
  -- key.
  analyze_loop : RequiredKeys → List Condition → List Condition → RequiredKeys × List Condition
  unfolding set_partition set_sort
  analyze_loop r pending [] = (r, pending)
  analyze_loop r pending (cond ∷ conds) =
      let r' = set_partition cond r in
      let early = text_eq r'.partition_key [] in
      let sorts = text_eq r'.sort_key [] && not (text_eq cond.field r'.partition_key) in
      analyze_loop (if early then r' else if sorts then set_sort cond r' else r')
        (if early then pending ++ cond ∷ [] else pending) conds

  -- The loop over the pending conditions, up to its break.
  pending_sort : RequiredKeys → List Condition → RequiredKeys
  unfolding set_sort
  pending_sort r [] = r
  pending_sort r (cond ∷ pending) =
      if text_eq cond.field r.partition_key then pending_sort r pending else set_sort cond r

  finish : RequiredKeys × List Condition → RequiredKeys
  finish (r, pending) =
      if text_eq r.sort_key [] && not (text_eq r.partition_key [])
      then pending_sort r pending
      else r

  unfoldable pub analyze_conditions : List Condition → RequiredKeys
  unfolding analyze_loop finish pending_sort
  analyze_conditions conditions =
      finish (
        analyze_loop (record { partition_key = []; sort_key = []; sort_key_op = [] }) [] conditions)
