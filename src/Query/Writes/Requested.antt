-- ===== src/Query/Writes/Requested.antt =====
-- pkg/query/query.go: the conditions that a write asks for, and that its builder gets.
use dynamorm.Base.{
  ◌≡◌, ◌≢◌, refl, sym, ap, ◌∙◌, ◌⊎◌, inl, inr, Bool, true, false, not, ◌&&◌, ◌||◌, Option, none,
  some, List, [], ◌∷◌, ◌++◌, Bool-cases, if◌then◌else◌,
}
use dynamorm.Base.Text.{Text, Unicode, codes, text_eq}
use dynamorm.Expr.Builder.{Builder, Converter, Result, ok, err}
use dynamorm.Expr.Builder.Applied.{
  Request, Applied, Applied-append, Takes, add_condition_expression-Takes,
}
use dynamorm.Query.Keys.{normalize_condition}
use dynamorm.Query.State.{
  ModelMetadata, Condition, QueryError, reject_encrypted, resolve_attribute_name,
}
use dynamorm.Query.Writes.{
  WriteFailure, RawExpression, Writes, key_test, and_then, checked, unless_rejected, add_condition,
  add_write_condition, add_write_conditions, is_added, add_where_conditions, add_default_condition,
  is_nonempty, any_added, Asked, needs_default, add_all_conditions,
}
use dynamorm.Validation.Value.{Value, nil}

abbrev pub request_of : Condition → Request
request_of cond = (cond.field, (cond.operator, cond.value))

abbrev pub requests_of : List Condition → List Request
requests_of [] = []
requests_of (cond ∷ conds) = request_of cond ∷ requests_of conds

module _ {A : Type 0} (u : Unicode) (c : Converter A) where
  -- An error, or a builder that got these requests.
  abbrev pub Adds : List Request → Builder A → WriteFailure ⊎ Builder A → Type 0
  Adds xs b (inl e) = Unit
  Adds xs b (inr b') = (es : List Text) × Applied u c xs b es b'

  nothing-Adds : (b : Builder A) → Adds [] b (inr b)
  nothing-Adds b = ([], (refl, refl))

  then-Adds :
      (xs ys : List Request) (b : Builder A) (o : WriteFailure ⊎ Builder A)
      (f : Builder A → WriteFailure ⊎ Builder A)
      → Adds xs b o
      → ((b' : Builder A) → Adds ys b' (f b'))
      → Adds (xs ++ ys) b (and_then o f)
  then-Adds xs ys b (inl e) f a g = tt
  then-Adds xs ys b (inr b') f a g = more (f b') (g b')
    where
      more : (o : WriteFailure ⊎ Builder A) → Adds ys b' o → Adds (xs ++ ys) b o
      more (inl e) x = tt
      more (inr b'') x = (a.0 ++ x.0, Applied-append u c xs ys b b' b'' a.0 x.0 a.1 x.1)

  if-Adds :
      (xs ys : List Request) (b : Builder A) (test : Bool) (o p : WriteFailure ⊎ Builder A)
      → Adds xs b o
      → Adds ys b p
      → Adds (if test then xs else ys) b (if test then o else p)
  if-Adds xs ys b true o p h k = h
  if-Adds xs ys b false o p h k = k

  rejected-Adds :
      (xs : List Request) (b : Builder A) (r : Option QueryError) (o : WriteFailure ⊎ Builder A)
      → Adds xs b o
      → Adds xs b (unless_rejected r o)
  rejected-Adds xs b (some e) o h = tt
  rejected-Adds xs b none o h = h

  checked-Adds :
      (x : Request) (b : Builder A) (r : Builder A × Result (Unit {0}))
      → Takes u c x b r
      → Adds (x ∷ []) b (checked r)
  checked-Adds x b (b', ok y) h = h
  checked-Adds x b (b', err e) h = tt

default_asked :
    (ws ys : List Request) (d : Request) (conds : List Condition) (raws : List RawExpression)
    (include default any : Bool)
    → is_nonempty conds ≡ is_nonempty ws
    → default ≡ true
    → (any ≡ true → is_nonempty ys ≡ true)
    → (is_nonempty (
          ws
          ++ ((if include then ys else [])
              ++ (if default && not (is_nonempty conds || include && any) && not (is_nonempty raws)
                  then d ∷ []
                  else [])))
        ≡ true)
      ⊎ (raws ≢ [])
default_asked ws ys d conds (r ∷ rs) include default any s h k = inr (λ e. cc)
default_asked (w ∷ ws) ys d conds [] include default any s h k = inl refl
default_asked [] ys d (q ∷ conds) [] include default any s h k = cc
default_asked [] [] d [] [] true true true s h k = let p = k refl in inl (cc)
default_asked [] (y ∷ ys) d [] [] true true true s h k = inl refl
default_asked [] [] d [] [] true true false s h k = inl refl
default_asked [] (y ∷ ys) d [] [] true true false s h k = inl refl
default_asked [] ys d [] [] false true any s h k = inl refl
default_asked [] ys d [] [] include false any s h k = cc

same_nonempty : (conds : List Condition) → is_nonempty conds ≡ is_nonempty (requests_of conds)
same_nonempty [] = refl
same_nonempty (cond ∷ conds) = refl

module _ {A : Type 0} (u : Unicode) (equal_fold : Text → Text → Bool) (c : Converter A)
    (convert : Value → Result A) (metadata : ModelMetadata) where
  -- The conditions of `Where`, without those on keys if they are to be skipped, under the names of
  -- their attributes.
  abbrev pub where_requests : Bool → List Condition → List Request
  where_requests skip_keys [] = []
  where_requests skip_keys (cond ∷ conds) =
      (if is_added u equal_fold c convert metadata skip_keys cond
        then request_of (normalize_condition metadata cond).condition ∷ []
        else [])
      ++ where_requests skip_keys conds

  -- That the partition key is not there.
  abbrev pub default_request : Request
  default_request =
      (resolve_attribute_name metadata metadata.partition_key, (codes "attribute_not_exists", nil))

  -- What a write asks for: its own conditions, those of `Where`, and the default.
  abbrev pub asked : Asked u equal_fold c convert metadata → Writes → List Condition → List Request
  asked a w conditions =
      requests_of w.conditions
      ++ ((if a.include_where then where_requests a.skip_keys conditions else [])
          ++ (if needs_default u equal_fold c convert metadata a w conditions
              then default_request ∷ []
              else []))

  add_condition-Adds :
      (cond : Condition) (b : Builder A)
      → Adds u c (request_of cond ∷ []) b (add_condition u equal_fold c convert metadata cond b)
  unfolding add_condition
  add_condition-Adds cond b =
      checked-Adds u c (request_of cond) b _
        (add_condition_expression-Takes u c cond.field cond.operator cond.value b)

  add_write_conditions-Adds :
      (conds : List Condition) (b : Builder A)
      → Adds u c
          (requests_of conds)
          b
          (add_write_conditions u equal_fold c convert metadata conds b)
  unfolding add_write_conditions
  add_write_conditions-Adds [] b = nothing-Adds u c b
  add_write_conditions-Adds (cond ∷ conds) b =
      then-Adds u c (request_of cond ∷ []) (requests_of conds) b _ _ write_adds
        (add_write_conditions-Adds conds)
    where
      write_adds :
          Adds u c
            (request_of cond ∷ [])
            b
            (add_write_condition u equal_fold c convert metadata cond b)
      write_adds = elim (Bool-cases (text_eq cond.field [])) [
        | inl empty ↦ rw empty tt
        | inr named ↦ rw named (
            rejected-Adds u c (request_of cond ∷ []) b (reject_encrypted metadata cond.field) _
              (add_condition-Adds cond b))
      ]

  add_where_conditions-Adds :
      (skip_keys : Bool) (conds : List Condition) (b : Builder A)
      → Adds u c
          (where_requests skip_keys conds)
          b
          (add_where_conditions u equal_fold c convert metadata skip_keys conds b)
  unfolding add_where_conditions
  add_where_conditions-Adds skip_keys [] b = nothing-Adds u c b
  add_where_conditions-Adds skip_keys (cond ∷ conds) b =
      then-Adds u c _ (where_requests skip_keys conds) b _ _
        (rejected-Adds u c _ b (reject_encrypted metadata cond.field) _ (
          if-Adds u c _ [] b (is_added u equal_fold c convert metadata skip_keys cond) _ _
            (add_condition-Adds (normalize_condition metadata cond).condition b)
            (nothing-Adds u c b)))
        (add_where_conditions-Adds skip_keys conds)

  add_default_condition-Adds :
      (b : Builder A)
      → Adds u c (default_request ∷ []) b (add_default_condition u equal_fold c convert metadata b)
  unfolding add_default_condition
  add_default_condition-Adds b = elim (Bool-cases (text_eq metadata.partition_key [])) [
    | inl empty ↦ rw (empty, add_default_condition) tt
    | inr named ↦
        rw (named, add_default_condition)
          (add_condition-Adds
            (key_test (resolve_attribute_name metadata metadata.partition_key)
              (codes "attribute_not_exists"))
            b)
  ]

  pub add_all_conditions-Adds :
      (a : Asked u equal_fold c convert metadata) (w : Writes) (conditions : List Condition)
      (b : Builder A)
      → Adds u c
          (asked a w conditions)
          b
          (add_all_conditions u equal_fold c convert metadata a w conditions b)
  unfolding add_all_conditions
  add_all_conditions-Adds a w conditions b =
      then-Adds u c (requests_of w.conditions) _ b _ _ (add_write_conditions-Adds w.conditions b)
        (λ b1.
          then-Adds u c _ _ b1 _ _
            (if-Adds u c _ [] b1 a.include_where _ _
              (add_where_conditions-Adds a.skip_keys conditions b1) (nothing-Adds u c b1))
            (λ b2.
              if-Adds u c _ [] b2 (needs_default u equal_fold c convert metadata a w conditions) _ _
                (add_default_condition-Adds b2) (nothing-Adds u c b2)))

  added_requests :
      (skip_keys : Bool) (conditions : List Condition)
      → any_added u equal_fold c convert metadata skip_keys conditions ≡ true
      → is_nonempty (where_requests skip_keys conditions) ≡ true
  added_requests skip_keys [] h = cc
  added_requests skip_keys (cond ∷ conds) h =
      elim (Bool-cases (is_added u equal_fold c convert metadata skip_keys cond)) [
        | inl added ↦ rw added refl
        | inr skipped ↦ rw skipped (
            added_requests skip_keys conds (
              ap (λ t. t || any_added u equal_fold c convert metadata skip_keys conds) (sym skipped)
              ∙ h))
      ]

  -- A write with a default has a condition or a raw expression.
  pub asked_default :
      (a : Asked u equal_fold c convert metadata) (w : Writes) (conditions : List Condition)
      → a.default_if_empty ≡ true
      → (is_nonempty (asked a w conditions) ≡ true) ⊎ (w.raws ≢ [])
  asked_default a w conditions h =
      default_asked (requests_of w.conditions) _ default_request w.conditions w.raws a.include_where
        a.default_if_empty _ (same_nonempty w.conditions) h (added_requests a.skip_keys conditions)
