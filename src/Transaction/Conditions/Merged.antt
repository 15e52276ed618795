-- ===== src/Transaction/Conditions/Merged.antt =====
-- pkg/transaction/builder.go: what `mergeRawConditions` makes of expressions and their values.
use mathlib.Core.List.{append_assoc, append-nil}
use dynamorm.Base.{
  ◌≡◌, ◌≢◌, refl, sym, ap, ◌∙◌, none, some, List, [], ◌∷◌, ◌++◌, Bool-cases, Option-cases, inl, inr,
  if◌then◌else◌,
}
use dynamorm.Base.Assoc.{lookup, insert}
use dynamorm.Base.Text.{Text, text_eq}
use dynamorm.Transaction.{TransactError, duplicate_placeholder}
use dynamorm.Transaction.Conditions.{
  RawCondition, Outcome, done, fail, then_with, merge_values, conjoin, merge_raw_conditions,
}

module _ {A : Type 0} where
  abbrev pub all_values : List (RawCondition A) → List (Text × A)
  all_values [] = []
  all_values (raw ∷ raws) = raw.values ++ all_values raws

  -- The expressions, one after the other, each with AND to those in front of it.
  abbrev pub conjoined : Text → List (RawCondition A) → Text
  conjoined e [] = e
  conjoined e (raw ∷ raws) = conjoined (conjoin e raw.expression) raws

  -- An entry whose placeholder already stands in front of it, and that the error names.
  pub record IsDuplicate (entries : List (Text × A)) (e : TransactError) : Type 0 where
    pub placeholder : Text
    pub value : A
    pub before : List (Text × A)
    pub after : List (Text × A)
    pub place : entries ≡ before ++ (placeholder, value) ∷ after
    pub earlier : lookup placeholder before ≢ none
    pub named : e ≡ duplicate_placeholder placeholder

  insert_new :
      (k : Text) (v : A) (m : List (Text × A)) → lookup k m ≡ none → insert k v m ≡ m ++ (k, v) ∷ []
  unfolding lookup insert
  insert_new k v [] h = refl
  insert_new k v ((j, w) ∷ m) h = elim (Bool-cases (text_eq j k)) [
    | inl same ↦ absurd (some_none (ap (λ b. if b then some w else lookup k m) (sym same) ∙ h))
    | inr other ↦
        rw (other, insert)
          (ap (λ l. (j, w) ∷ l)
            (insert_new k v m (ap (λ b. if b then some w else lookup k m) (sym other) ∙ h)))
  ]
    where
      some_none : some w ≡ none → ⊥
      some_none e = cc

  -- All the entries, or the error of one that is there twice.
  abbrev AreEntries : List (Text × A) → Outcome (List (Text × A)) → Type 0
  AreEntries entries (done out) = out ≡ entries
  AreEntries entries (fail e) = IsDuplicate entries e

  merge_values-AreEntries :
      (vs values : List (Text × A)) → AreEntries (values ++ vs) (merge_values vs values)
  unfolding merge_values
  merge_values-AreEntries [] values = sym (append-nil values)
  merge_values-AreEntries ((k, v) ∷ vs) values = elim (Option-cases (lookup k values)) [
    | inr (w, found) ↦
        rw (found, merge_values)
          (record {
            placeholder = k;
            value = v;
            before = values;
            after = vs;
            place = refl;
            earlier = λ e. apart (sym found ∙ e);
            named = refl;
          })
    | inl fresh ↦
        rw
          (
            fresh,
            merge_values,
            insert_new k v values fresh,
            ← (append_assoc values ((k, v) ∷ []) vs),
          )
          (merge_values-AreEntries vs (values ++ (k, v) ∷ []))
  ]
    where
      apart : {w : A} → some w ≡ none → ⊥
      apart e = cc

  -- An expression and all the entries, or the error of an entry that is there twice.
  abbrev pub AreMerged : Text → List (Text × A) → Outcome (Text × List (Text × A)) → Type 0
  AreMerged e entries (done r) = (r.0 ≡ e) × (r.1 ≡ entries)
  AreMerged e entries (fail err) = IsDuplicate entries err

  -- What `mergeRawConditions` is to return.
  abbrev pub IsMerged :
      Text → List (Text × A) → List (RawCondition A) → Outcome (Text × List (Text × A)) → Type 0
  IsMerged e values raws = AreMerged (conjoined e raws) (values ++ all_values raws)

  extended :
      (entries more : List (Text × A)) (e : TransactError)
      → IsDuplicate entries e
      → IsDuplicate (entries ++ more) e
  extended entries more e d = record {
    placeholder = d.placeholder;
    value = d.value;
    before = d.before;
    after = d.after ++ more;
    place =
        ap (λ l. l ++ more) d.place
        ∙ append_assoc d.before ((d.placeholder, d.value) ∷ d.after) more;
    earlier = d.earlier;
    named = d.named;
  }

  step-IsMerged :
      (e : Text) (values : List (Text × A)) (raw : RawCondition A) (raws : List (RawCondition A))
      (o : Outcome (List (Text × A)))
      → AreEntries (values ++ raw.values) o
      → ((vs : List (Text × A))
          → IsMerged
              (conjoin e raw.expression)
              vs
              raws
              (merge_raw_conditions (conjoin e raw.expression) vs raws))
      → IsMerged e values
          (raw ∷ raws)
          (then_with o (λ merged. merge_raw_conditions (conjoin e raw.expression) merged raws))
  step-IsMerged e values raw raws (done merged) h rest =
      rw (h, ← (append_assoc values raw.values (all_values raws))) (rest (values ++ raw.values))
  step-IsMerged e values raw raws (fail err) h rest =
      rw (← (append_assoc values raw.values (all_values raws)))
        (extended (values ++ raw.values) (all_values raws) err h)

  -- `mergeRawConditions` joins the expressions with AND and adds the values of every raw condition
  -- behind those there are, none of which it replaces. Its only error names a placeholder of a raw
  -- condition that already stands for a value in front of it.
  pub merge_raw_conditions-IsMerged :
      (e : Text) (values : List (Text × A)) (raws : List (RawCondition A))
      → IsMerged e values raws (merge_raw_conditions e values raws)
  unfolding merge_raw_conditions
  merge_raw_conditions-IsMerged e values [] = (refl, sym (append-nil values))
  merge_raw_conditions-IsMerged e values (raw ∷ raws) =
      step-IsMerged e values raw raws (merge_values raw.values values)
        (merge_values-AreEntries raw.values values)
        (λ vs. merge_raw_conditions-IsMerged (conjoin e raw.expression) vs raws)
