-- ===== src/Expr/Builder/Names.antt =====
-- internal/expr/builder.go: what the placeholders of names stand for, through `addNameSecure`.
use dynamorm.Base.{
  ◌≡◌, refl, inl, inr, true, false, Option, none, some, List, [], ◌∷◌, Option-cases, Bool-cases,
  All,
}
use dynamorm.Base.Assoc.{lookup, lookup-insert_self}
use dynamorm.Base.Text.{Text, Unicode, has_char, split, upper}
use dynamorm.Base.Text.Split.{split_alone}
use dynamorm.Expr.Builder.{
  Builder, find_placeholder, bind_name, bind_parts, add_new_name, add_name_secure, joined_parts,
}
use dynamorm.Expr.Reserved.{is_reserved_word}
use dynamorm.Validation.Field.{validate_field_name}
use dynamorm.Expr.Builder.Bindings.{Inv, bind_name-Inv, bind_name_keeps, find_sound}

-- None of these names is a reserved word that the name writes with other letter cases.
abbrev pub SpelledOnce : Unicode → Text → List Text → Type 0
SpelledOnce u y = All (λ z. is_reserved_word u z ≡ true → upper u y ≡ upper u z → y ≡ z)

module _ {A : Type 0} (u : Unicode) where
  bind_parts-Inv : (parts : List Text) (b : Builder A) → Inv u b → Inv u (bind_parts u b parts).0
  unfolding bind_parts
  bind_parts-Inv [] b v = v
  bind_parts-Inv (part ∷ parts) b v = elim (Option-cases (validate_field_name u part)) [
    | inl fine ↦
        rw (fine, bind_parts)
          (bind_parts-Inv parts (bind_name u b part).0 (bind_name-Inv u b part v))
    | inr (e, refused) ↦ rw (refused, bind_parts) v
  ]

  bind_parts_keeps :
      (parts : List Text) (b : Builder A) (q y : Text)
      → Inv u b
      → lookup q b.names ≡ some y
      → SpelledOnce u y parts
      → lookup q (bind_parts u b parts).0.names ≡ some y
  unfolding bind_parts
  bind_parts_keeps [] b q y v e s = e
  bind_parts_keeps (part ∷ parts) b q y v e s = elim (Option-cases (validate_field_name u part)) [
    | inl fine ↦
        rw (fine, bind_parts)
          (bind_parts_keeps parts (bind_name u b part).0 q y (bind_name-Inv u b part v)
            (bind_name_keeps u b part q y v e s.0) s.1)
    | inr (x, refused) ↦ rw (refused, bind_parts) e
  ]

  joined-0 : (r : Builder A × Option (List Text)) → (joined_parts r).0 ≡ r.0
  joined-0 (b, none) = refl
  joined-0 (b, some ps) = refl

  -- Every name that is added keeps the kinds of the bindings and one binding for each placeholder.
  pub add_name_secure-Inv :
      (b : Builder A) (name : Text) → Inv u b → Inv u (add_name_secure u b name).0
  unfolding add_name_secure add_new_name
  add_name_secure-Inv b name v = elim (Option-cases (validate_field_name u name)) [
    | inr (e, refused) ↦ rw (refused, add_name_secure) v
    | inl fine ↦
        rw (fine, add_name_secure)
          (elim (Option-cases (find_placeholder name b.names)) [
            | inr (p, found) ↦ rw (found, add_new_name) v
            | inl absent ↦
                rw (absent, add_new_name)
                  (elim (Bool-cases (has_char b'.' name)) [
                    | inl dotted ↦
                        rw (dotted, add_new_name, joined-0 (bind_parts u b (split b'.' name)))
                          (bind_parts-Inv (split b'.' name) b v)
                    | inr plain ↦ rw (plain, add_new_name) (bind_name-Inv u b name v)
                  ])
          ])
  ]

  -- In a builder with one binding for each placeholder, where every binding is either numbered, up to
  -- the counter, or of a reserved word to its upper case, `addNameSecure` keeps what every placeholder
  -- stands for, unless a part of the new name is a reserved word that the old name writes with other
  -- letter cases.
  pub add_name_secure_keeps :
      (b : Builder A) (name q y : Text)
      → Inv u b
      → lookup q b.names ≡ some y
      → SpelledOnce u y (split b'.' name)
      → lookup q (add_name_secure u b name).0.names ≡ some y
  unfolding add_name_secure add_new_name
  add_name_secure_keeps b name q y v e s = elim (Option-cases (validate_field_name u name)) [
    | inr (x, refused) ↦ rw (refused, add_name_secure) e
    | inl fine ↦
        rw (fine, add_name_secure)
          (elim (Option-cases (find_placeholder name b.names)) [
            | inr (p, found) ↦ rw (found, add_new_name) e
            | inl absent ↦
                rw (absent, add_new_name)
                  (elim (Bool-cases (has_char b'.' name)) [
                    | inl dotted ↦
                        rw (dotted, add_new_name, joined-0 (bind_parts u b (split b'.' name)))
                          (bind_parts_keeps (split b'.' name) b q y v e s)
                    | inr plain ↦
                        rw (plain, add_new_name)
                          (bind_name_keeps u b name q y v e
                            (rw (split_alone b'.' name plain) at s).0)
                  ])
          ])
  ]

  add_new_name_resolves :
      (b : Builder A) (name : Text)
      → Inv u b
      → has_char b'.' name ≡ false
      → lookup (add_new_name u b name).1 (add_new_name u b name).0.names ≡ some name
  unfolding add_new_name
  add_new_name_resolves b name v plain = elim (Option-cases (find_placeholder name b.names)) [
    | inr (p, found) ↦ rw (found, add_new_name) (find_sound b.names name p v.unique found)
    | inl absent ↦
        rw (absent, add_new_name, plain) (unfold bind_name in lookup-insert_self _ name b.names)
  ]

  -- In a builder with one binding for each placeholder, where every binding is either numbered, up to
  -- the counter, or of a reserved word to its upper case, the placeholder that `addNameSecure` returns
  -- for an accepted name without dots stands for it.
  pub add_name_secure_resolves :
      (b : Builder A) (name : Text)
      → Inv u b
      → validate_field_name u name ≡ none
      → has_char b'.' name ≡ false
      → lookup (add_name_secure u b name).1 (add_name_secure u b name).0.names ≡ some name
  unfolding add_name_secure
  add_name_secure_resolves b name v fine plain =
      rw (fine, add_name_secure) (add_new_name_resolves b name v plain)
