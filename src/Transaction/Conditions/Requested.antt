-- ===== src/Transaction/Conditions/Requested.antt =====
-- pkg/transaction/builder.go: what the conditions of an operation ask of the expression builder.
use dynamorm.Base.{
  ◌≡◌, refl, Bool, true, false, Option, none, some, List, [], ◌∷◌, ◌++◌, if◌then◌else◌,
}
use dynamorm.Base.Text.{Text, Unicode, codes, text_eq}
use dynamorm.Expr.Builder.{Builder, Converter, Result, ok, err}
use dynamorm.Expr.Builder.Applied.{
  Request, Applied, Applied-append, Takes, add_condition_expression-Takes,
}
use dynamorm.Transaction.{
  TransactCondition, ConditionKind, unset, field, primary_key_exists, primary_key_not_exists,
  version_equals, expression, unlisted, operator_required,
}
use dynamorm.Transaction.Conditions.{
  FieldMetadata, KeyMetadata, Metadata, RawCondition, Outcome, done, fail, then_with,
  resolve_attribute_name, version_attribute_name, checked, build_raw_condition, add_condition,
  add_sort_condition, add_key_condition, add_primary_key_condition, add_field_condition,
  without_raw, apply_condition, apply_conditions,
}
use dynamorm.Validation.Value.{Value, nil}

-- The builder in a result, if there is one.
abbrev pub Holds {ℓ} : {X : Type ℓ} → (X → Type 0) → Outcome X → Type 0
Holds P (done x) = P x
Holds P (fail e) = Unit

then-Holds {ℓ κ} :
    {X : Type ℓ} {Y : Type κ} (P : X → Type 0) (Q : Y → Type 0) (o : Outcome X) (f : X → Outcome Y)
    → Holds P o
    → ((x : X) → P x → Holds Q (f x))
    → Holds Q (then_with o f)
then-Holds P Q (done x) f h k = k x h
then-Holds P Q (fail e) f h k = tt

if-Holds {ℓ} :
    {X : Type ℓ} (P : X → Type 0) (b : Bool) (o p : Outcome X)
    → Holds P o
    → Holds P p
    → Holds P (if b then o else p)
if-Holds P true o p h k = h
if-Holds P false o p h k = k

module _ {A : Type 0} (u : Unicode) (c : Converter A) (convert : Value → Result A) where
  -- What a condition asks of the expression builder.
  abbrev pub field_requests : Metadata → TransactCondition → List Request
  field_requests metadata cond = elim (resolve_attribute_name metadata cond.field) [
    | done name ↦ (name, (cond.operator, cond.value)) ∷ []
    | fail e ↦ []
  ]

  abbrev pub sort_requests : Option FieldMetadata → Text → List Request
  sort_requests none op = []
  sort_requests (some m) op = (m.db_name, (op, nil)) ∷ []

  abbrev pub key_requests : Option KeyMetadata → Text → List Request
  key_requests none op = []
  key_requests (some keys) op =
      ((keys.partition.db_name, (op, nil)) ∷ []) ++ sort_requests keys.sort op

  abbrev pub requests_by : Metadata → TransactCondition → ConditionKind → List Request
  requests_by metadata cond unset = field_requests metadata cond
  requests_by metadata cond field = field_requests metadata cond
  requests_by metadata cond primary_key_exists =
      key_requests metadata.primary_key (codes "attribute_exists")
  requests_by metadata cond primary_key_not_exists =
      key_requests metadata.primary_key (codes "attribute_not_exists")
  requests_by metadata cond version_equals = elim (version_attribute_name metadata) [
    | done name ↦ (name, (codes "=", cond.value)) ∷ []
    | fail e ↦ []
  ]
  requests_by metadata cond expression = []
  requests_by metadata cond unlisted = []

  -- The raw condition that a condition makes.
  abbrev pub raws_by : TransactCondition → ConditionKind → List (RawCondition A)
  raws_by cond expression = elim (build_raw_condition convert cond) [
    | done raw ↦ raw ∷ []
    | fail e ↦ []
  ]
  raws_by cond _ = []

  abbrev pub requests_of : Metadata → List TransactCondition → List Request
  requests_of metadata [] = []
  requests_of metadata (cond ∷ conds) =
      requests_by metadata cond cond.kind ++ requests_of metadata conds

  abbrev pub raws_of : List TransactCondition → List (RawCondition A)
  raws_of [] = []
  raws_of (cond ∷ conds) = raws_by cond cond.kind ++ raws_of conds

  -- A builder that got these requests.
  abbrev pub Adds : List Request → Builder A → Builder A → Type 0
  Adds xs b b' = (es : List Text) × Applied u c xs b es b'

  abbrev pub Pair :
      List Request → List (RawCondition A) → Builder A → Builder A × List (RawCondition A) → Type 0
  Pair xs raws b r = Adds xs b r.0 × (r.1 ≡ raws)

  checked-Holds :
      (x : Request) (b : Builder A) (r : Builder A × Result (Unit {0}))
      → Takes u c x b r
      → Holds (Adds (x ∷ []) b) (checked r)
  checked-Holds x b (b', ok y) v = v
  checked-Holds x b (b', err e) v = tt

  add_condition-Holds :
      (name op : Text) (value : Value) (b : Builder A)
      → Holds (Adds ((name, (op, value)) ∷ []) b) (add_condition u c convert name op value b)
  unfolding add_condition
  add_condition-Holds name op value b =
      checked-Holds (name, (op, value)) b _ (add_condition_expression-Takes u c name op value b)

  add_sort_condition-Holds :
      (m : Option FieldMetadata) (op : Text) (b : Builder A)
      → Holds (Adds (sort_requests m op) b) (add_sort_condition u c convert m op b)
  unfolding add_sort_condition
  add_sort_condition-Holds none op b = ([], (refl, refl))
  add_sort_condition-Holds (some m) op b = add_condition-Holds m.db_name op nil b

  -- One step after the other.
  both-Holds :
      (xs ys : List Request) (b : Builder A) (o : Outcome (Builder A))
      (f : Builder A → Outcome (Builder A))
      → Holds (Adds xs b) o
      → ((b' : Builder A) → Holds (Adds ys b') (f b'))
      → Holds (Adds (xs ++ ys) b) (then_with o f)
  both-Holds xs ys b (fail e) f h k = tt
  both-Holds xs ys b (done b') f h k = more (f b') (k b')
    where
      more : (o : Outcome (Builder A)) → Holds (Adds ys b') o → Holds (Adds (xs ++ ys) b) o
      more (fail e) x = tt
      more (done b'') x = (h.0 ++ x.0, Applied-append u c xs ys b b' b'' h.0 x.0 h.1 x.1)

  add_key_condition-Holds :
      (keys : Option KeyMetadata) (op : Text) (b : Builder A)
      → Holds (Adds (key_requests keys op) b) (add_key_condition u c convert keys op b)
  unfolding add_key_condition
  add_key_condition-Holds none op b = tt
  add_key_condition-Holds (some keys) op b =
      both-Holds ((keys.partition.db_name, (op, nil)) ∷ []) (sort_requests keys.sort op) b _ _
        (add_condition-Holds keys.partition.db_name op nil b)
        (add_sort_condition-Holds keys.sort op)

  named-Holds :
      (o : Outcome Text) (op : Text) (value : Value) (b : Builder A)
      → Holds
          (Adds (elim o [ done name ↦ (name, (op, value)) ∷ [] | fail e ↦ [] ]) b)
          (then_with o (λ name. add_condition u c convert name op value b))
  named-Holds (done name) op value b = add_condition-Holds name op value b
  named-Holds (fail e) op value b = tt

  add_field_condition-Holds :
      (metadata : Metadata) (cond : TransactCondition) (b : Builder A)
      → Holds
          (Adds (field_requests metadata cond) b)
          (add_field_condition u c convert metadata cond b)
  unfolding add_field_condition
  add_field_condition-Holds metadata cond b = go (resolve_attribute_name metadata cond.field)
    where
      go :
          (o : Outcome Text)
          → Holds
              (Adds
                (elim o [ done name ↦ (name, (cond.operator, cond.value)) ∷ [] | fail e ↦ [] ])
                b)
              (then_with o (λ name.
                if text_eq cond.operator []
                then fail operator_required
                else add_condition u c convert name cond.operator cond.value b))
      go (fail e) = tt
      go (done name) =
          if-Holds _ (text_eq cond.operator []) _ _ tt
            (add_condition-Holds name cond.operator cond.value b)

  without_raw-Holds :
      (xs : List Request) (b : Builder A) (o : Outcome (Builder A))
      → Holds (Adds xs b) o
      → Holds (Pair xs [] b) (without_raw u c convert o)
  without_raw-Holds xs b (done b') v = (v, refl)
  without_raw-Holds xs b (fail e) v = tt

  raw-Holds :
      (o : Outcome (RawCondition A)) (b : Builder A)
      → Holds
          (Pair [] (elim o [ done raw ↦ raw ∷ [] | fail e ↦ [] ]) b)
          (then_with o (λ raw. done (b, raw ∷ [])))
  raw-Holds (done raw) b = (([], (refl, refl)), refl)
  raw-Holds (fail e) b = tt

  apply_condition-Holds :
      (metadata : Metadata) (cond : TransactCondition) (kind : ConditionKind) (b : Builder A)
      → Holds
          (Pair (requests_by metadata cond kind) (raws_by cond kind) b)
          (apply_condition u c convert metadata cond kind b)
  unfolding apply_condition add_primary_key_condition
  apply_condition-Holds metadata cond unset b =
      without_raw-Holds _ b _ (add_field_condition-Holds metadata cond b)
  apply_condition-Holds metadata cond field b =
      without_raw-Holds _ b _ (add_field_condition-Holds metadata cond b)
  apply_condition-Holds metadata cond primary_key_exists b =
      without_raw-Holds _ b _ (add_key_condition-Holds metadata.primary_key _ b)
  apply_condition-Holds metadata cond primary_key_not_exists b =
      without_raw-Holds _ b _ (add_key_condition-Holds metadata.primary_key _ b)
  apply_condition-Holds metadata cond version_equals b =
      without_raw-Holds _ b _
        (named-Holds (version_attribute_name metadata) (codes "=") cond.value b)
  apply_condition-Holds metadata cond expression b = raw-Holds (build_raw_condition convert cond) b
  apply_condition-Holds metadata cond unlisted b = tt

  pub apply_conditions-Holds :
      (metadata : Metadata) (conds : List TransactCondition) (b : Builder A)
      → Holds
          (Pair (requests_of metadata conds) (raws_of conds) b)
          (apply_conditions u c convert metadata conds b)
  unfolding apply_conditions
  apply_conditions-Holds metadata [] b = (([], (refl, refl)), refl)
  apply_conditions-Holds metadata (cond ∷ conds) b =
      go (apply_condition u c convert metadata cond cond.kind b)
        (apply_condition-Holds metadata cond cond.kind b) (apply_conditions-Holds metadata conds)
    where
      rest :
          (r : Builder A × List (RawCondition A)) (q : Outcome (Builder A × List (RawCondition A)))
          → Pair (requests_by metadata cond cond.kind) (raws_by cond cond.kind) b r
          → Holds (Pair (requests_of metadata conds) (raws_of conds) r.0) q
          → Holds
              (Pair (requests_of metadata (cond ∷ conds)) (raws_of (cond ∷ conds)) b)
              (then_with q (λ p. done (p.0, r.1 ++ p.1)))
      rest r (fail e) v w = tt
      rest r (done p) v w = (
        (v.0.0 ++ w.0.0, Applied-append u c _ _ b r.0 p.0 v.0.0 w.0.0 v.0.1 w.0.1),
        rw (v.1, w.1) refl,
      )

      go :
          (o : Outcome (Builder A × List (RawCondition A)))
          → Holds (Pair (requests_by metadata cond cond.kind) (raws_by cond cond.kind) b) o
          → ((b' : Builder A)
              → Holds
                  (Pair (requests_of metadata conds) (raws_of conds) b')
                  (apply_conditions u c convert metadata conds b'))
          → Holds (Pair (requests_of metadata (cond ∷ conds)) (raws_of (cond ∷ conds)) b) (
              then_with o (λ r.
                then_with
                  (apply_conditions u c convert metadata conds r.0)
                  (λ q. done (q.0, r.1 ++ q.1))))
      go (fail e) v h = tt
      go (done r) v h = rest r (apply_conditions u c convert metadata conds r.0) v (h r.0)
