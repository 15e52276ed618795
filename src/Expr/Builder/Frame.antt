-- ===== src/Expr/Builder/Frame.antt =====
-- internal/expr/builder.go: what the steps of a method leave alone, the conditions and their
-- operators.
use dynamorm.Base.{
  ◌≡◌, refl, ◌∙◌, Option, none, some, List, [], ◌∷◌, Option-cases, Bool-cases, inl, inr,
}
use dynamorm.Base.Text.{Text, Unicode, has_char, split}
use dynamorm.Validation.Field.{validate_field_name}
use dynamorm.Validation.Value.{Value}
use dynamorm.Expr.Builder.{
  Builder, Converter, Result, ok, err, M, ◌>>=◌, continue, find_placeholder, bind_name, bind_parts,
  joined_parts, add_new_name, add_name_secure, attribute_of, bind_value, add_value_secure,
}

pub record Conditions : Type 0 where
  pub filters : List Text
  pub filter_operators : List Text
  pub writes : List Text
  pub write_operators : List Text

abbrev pub conditions_of : {A : Type 0} → Builder A → Conditions
conditions_of b = record {
  filters = b.filter_conditions;
  filter_operators = b.filter_operators;
  writes = b.conditions;
  write_operators = b.condition_operators;
}

-- The step leaves the conditions as they are, whether or not it fails.
abbrev pub Frames : {A X : Type 0} → M A X → Type 0
Frames {A} m = (b : Builder A) → conditions_of (m b).0 ≡ conditions_of b

module _ {A X Y : Type 0} where
  continue-Frames :
      (r : Builder A × Result X) (f : X → M A Y)
      → ((x : X) → Frames (f x))
      → conditions_of (continue r f).0 ≡ conditions_of r.0
  continue-Frames (b, ok x) f h = h x b
  continue-Frames (b, err e) f h = refl

  pub bind-Frames :
      (m : M A X) (f : X → M A Y) → Frames m → ((x : X) → Frames (f x)) → Frames (m >>= f)
  unfolding ◌>>=◌
  bind-Frames m f h k b = continue-Frames (m b) f k ∙ h b

module _ {A : Type 0} (u : Unicode) where
  bind_name-Frames :
      (b : Builder A) (name : Text) → conditions_of (bind_name u b name).0 ≡ conditions_of b
  unfolding bind_name
  bind_name-Frames b name = refl

  bind_parts-Frames :
      (parts : List Text) (b : Builder A) → conditions_of (bind_parts u b parts).0 ≡ conditions_of b
  unfolding bind_parts
  bind_parts-Frames [] b = refl
  bind_parts-Frames (part ∷ parts) b = elim (Option-cases (validate_field_name u part)) [
    | inl fine ↦
        rw (fine, bind_parts)
          (bind_parts-Frames parts (bind_name u b part).0 ∙ bind_name-Frames b part)
    | inr (e, refused) ↦ rw (refused, bind_parts) refl
  ]

  joined_parts-Frames :
      (r : Builder A × Option (List Text)) → conditions_of (joined_parts r).0 ≡ conditions_of r.0
  joined_parts-Frames (b, none) = refl
  joined_parts-Frames (b, some ps) = refl

  add_new_name-Frames :
      (b : Builder A) (name : Text) → conditions_of (add_new_name u b name).0 ≡ conditions_of b
  unfolding add_new_name
  add_new_name-Frames b name = elim (Option-cases (find_placeholder name b.names)) [
    | inr (p, found) ↦ rw (found, add_new_name) refl
    | inl absent ↦ elim (Bool-cases (has_char b'.' name)) [
      | inl dotted ↦
          rw (absent, add_new_name, dotted)
            (joined_parts-Frames (bind_parts u b (split b'.' name))
              ∙ bind_parts-Frames (split b'.' name) b)
      | inr plain ↦ rw (absent, add_new_name, plain) (bind_name-Frames b name)
    ]
  ]

  pub add_name_secure-Frames :
      (b : Builder A) (name : Text) → conditions_of (add_name_secure u b name).0 ≡ conditions_of b
  unfolding add_name_secure
  add_name_secure-Frames b name = elim (Option-cases (validate_field_name u name)) [
    | inr (e, refused) ↦ rw (refused, add_name_secure) refl
    | inl fine ↦ rw (fine, add_name_secure) (add_new_name-Frames b name)
  ]

  bind_value-Frames :
      (b : Builder A) (r : Result A) → conditions_of (bind_value b r).0 ≡ conditions_of b
  unfolding bind_value
  bind_value-Frames b (ok av) = refl
  bind_value-Frames b (err e) = refl

  pub add_value_secure-Frames :
      (c : Converter A) (v : Value) (b : Builder A)
      → conditions_of (add_value_secure u c b v).0 ≡ conditions_of b
  unfolding add_value_secure
  add_value_secure-Frames c v b = bind_value-Frames b (attribute_of u c v)
