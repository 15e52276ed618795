-- ===== src/Naming/Valid.antt =====
-- pkg/naming/naming.go: the names that are made are names that pass.
use dynamorm.Base.{
  ℕ, zero, suc, ◌≡◌, refl, true, false, ◌&&◌, ◌||◌, none, [], ◌∷◌, ◌++◌, arith, all, take, drop,
  Bool-cases, inl, inr, &&_true,
}
use dynamorm.Base.Text.{Text, Unicode, is_digit, is_letter, lower}
use dynamorm.Naming.{
  Convention, camel_case, snake_case, is_small, is_alphanumeric, matches_camel, snake_rest,
  matches_snake, is_key_name, validate_attr_name, boundary_loop, default_attr_name, breaks,
  snake_loop, to_snake_case, convert_attr_name,
}

module _ (u : Unicode) where
  lower_letter : (c : ℕ) → is_letter c ≡ true → is_small (u.to_lower c) ≡ true
  unfolding is_small
  lower_letter c h = rw (u.to_lower-ascii c (ground arith)) (ground arith)

  lower_alphanumeric : (c : ℕ) → is_alphanumeric c ≡ true → is_alphanumeric (u.to_lower c) ≡ true
  unfolding is_alphanumeric
  lower_alphanumeric c h = rw (u.to_lower-ascii c (ground arith)) (ground arith)

  upper_letter : (c : ℕ) → is_alphanumeric c ≡ true → u.is_upper c ≡ true → is_letter c ≡ true
  unfolding is_alphanumeric
  upper_letter c h k = ground (arith, u.is_upper-ascii c (ground arith))

  lower_snake :
      (c : ℕ)
      → is_alphanumeric c ≡ true
      → (is_small (u.to_lower c) || is_digit (u.to_lower c)) ≡ true
  unfolding is_alphanumeric is_small
  lower_snake c h = rw (u.to_lower-ascii c (ground arith)) (ground arith)

  lowered_all :
      (n : ℕ) (t : Text)
      → all is_alphanumeric t ≡ true
      → all is_alphanumeric (lower u (take n t) ++ drop n t) ≡ true
  unfolding lower
  lowered_all zero t h = h
  lowered_all (suc n) [] h = refl
  lowered_all (suc n) (c ∷ t) h =
      let a = &&_true _ _ h in rw (lower_alphanumeric c a.0, lowered_all n t a.1) refl

  boundary_suc : (n : ℕ) (t : Text) → (m : ℕ) × (boundary_loop u (suc n) t ≡ suc m)
  unfolding boundary_loop
  boundary_suc n [] = (n, refl)
  boundary_suc n (c ∷ []) = elim (Bool-cases (u.is_upper c)) [
    | inl capital ↦ (suc n, rw capital refl)
    | inr other ↦ (n, rw other refl)
  ]
  boundary_suc n (c ∷ d ∷ t) = elim (Bool-cases (u.is_upper c)) [
    | inr other ↦ (n, rw other refl)
    | inl capital ↦ elim (Bool-cases (u.is_upper d)) [
      | inr other ↦ (n, rw (capital, other) refl)
      | inl more ↦ let r = boundary_suc (suc n) (d ∷ t) in (r.0, rw (capital, more) r.1)
    ]
  ]

  validate_camel : (t : Text) → matches_camel t ≡ true → validate_attr_name t camel_case ≡ none
  unfolding validate_attr_name matches_camel
  validate_camel [] h = cc
  validate_camel (c ∷ t) h = ground arith

  validate_snake : (t : Text) → matches_snake t ≡ true → validate_attr_name t snake_case ≡ none
  unfolding validate_attr_name matches_snake
  validate_snake [] h = cc
  validate_snake (c ∷ t) h = ground arith

  camel_valid :
      (c : ℕ) (t : Text)
      → is_letter c ≡ true
      → all is_alphanumeric t ≡ true
      → validate_attr_name (default_attr_name u (c ∷ t)) camel_case ≡ none
  unfolding default_attr_name matches_camel lower
  camel_valid c [] h a = validate_camel _ (rw (lower_letter c h) refl)
  camel_valid c (d ∷ t) h a = elim (Bool-cases (is_key_name (c ∷ d ∷ t))) [
    | inl key ↦ rw (key, default_attr_name) (unfold validate_attr_name in rw key refl)
    | inr plain ↦
        let (n, e) = boundary_suc 0 (d ∷ t) in
        rw (plain, default_attr_name, e)
          (validate_camel _ (rw (lower_letter c h) (lowered_all n (d ∷ t) a)))
  ]

  snake_loop_rest :
      (prev : ℕ) (t : Text)
      → all is_alphanumeric t ≡ true
      → snake_rest false (snake_loop u prev t) ≡ true
  unfolding snake_loop snake_rest
  snake_loop_rest prev [] a = refl
  snake_loop_rest prev (c ∷ t) a =
      let h = &&_true _ _ a in
      elim (Bool-cases (u.is_upper c && breaks u prev t)) [
        | inl split ↦
            rw (split, snake_loop)
              (unfold is_small in rw (lower_snake c h.0) (snake_loop_rest c t h.1))
        | inr joined ↦ rw (joined, snake_loop) (rw (lower_snake c h.0) (snake_loop_rest c t h.1))
      ]

  -- Of a field name of ASCII letters and digits that starts with a letter, both conventions make a
  -- name that `ValidateAttrName` accepts under the same convention.
  pub validate_attr_name-convert_attr_name :
      (c : ℕ) (t : Text) (convention : Convention)
      → is_letter c ≡ true
      → all is_alphanumeric t ≡ true
      → validate_attr_name (convert_attr_name u (c ∷ t) convention) convention ≡ none
  unfolding convert_attr_name to_snake_case matches_snake
  validate_attr_name-convert_attr_name c t camel_case h a = camel_valid c t h a
  validate_attr_name-convert_attr_name c t snake_case h a =
      validate_snake _ (rw (lower_letter c h) (snake_loop_rest c t a))
