-- ===== src/Validation/Names/Tables.antt =====
-- The table names that `ValidateTableName` accepts.
use dynamorm.Base.{
  ℕ, ◌≤◌, ◌≡◌, refl, ◌↔◌, inl, inr, true, false, none, [], ◌∷◌, all, arith, Bool-cases, ◌==◌,
}
use dynamorm.Base.Text.{Text, Unicode, codes, len, lower, contains, has_prefix}
use dynamorm.Base.Text.Search.{any-contains-false}
use dynamorm.Validation.Patterns.{
  dangerous_patterns, contains_any_substring, is_table_char, matches_table_name,
}
use dynamorm.Validation.Names.{validate_table_name, validate_index_name}

lower_table_char :
    (u : Unicode) (c : ℕ) → is_table_char c ≡ true → is_table_char (u.to_lower c) ≡ true
lower_table_char u c h = ground (arith, u.to_lower-ascii c)

lower-table :
    (u : Unicode) (t : Text) → all is_table_char t ≡ true → all is_table_char (lower u t) ≡ true
unfolding lower
lower-table u [] h = refl
lower-table u (c ∷ t) h = ground (arith, lower_table_char u c, lower-table u t)

-- A dash is a dash in lower case, and no other table character becomes one.
lower_dash : (u : Unicode) (c : ℕ) → is_table_char c ≡ true → (b'-' == u.to_lower c) ≡ (b'-' == c)
lower_dash u c h = ground (arith, u.to_lower-ascii c)

has_prefix-lower :
    (u : Unicode) (t : Text)
    → all is_table_char t ≡ true
    → has_prefix (codes "--") (lower u t) ≡ has_prefix (codes "--") t
unfolding has_prefix lower
has_prefix-lower u [] h = refl
has_prefix-lower u (c ∷ []) h = ground (arith, lower_dash u c)
has_prefix-lower u (c ∷ d ∷ t) h = ground (arith, lower_dash u c, lower_dash u d)

dashes_lower :
    (u : Unicode) (t : Text)
    → all is_table_char t ≡ true
    → contains (codes "--") (lower u t) ≡ contains (codes "--") t
unfolding contains lower
dashes_lower u [] h = refl
dashes_lower u (c ∷ t) h = ground (arith, has_prefix-lower u (c ∷ t) h, dashes_lower u t)

matches_all : (t : Text) → matches_table_name t ≡ true → all is_table_char t ≡ true
unfolding matches_table_name
matches_all [] h = refl
matches_all (c ∷ t) h = h

-- Of the dangerous patterns only the two dashes can be written in table characters.
dangerous_dashes :
    (u : Unicode) (t : Text)
    → all is_table_char t ≡ true
    → contains_any_substring (lower u t) dangerous_patterns ≡ contains (codes "--") t
dangerous_dashes u t h =
    let safe = lower-table u t h in
    ground (
      arith,
      dashes_lower u t h,
      any-contains-false is_table_char (codes "'" ∷ codes "\"" ∷ codes ";" ∷ []) (lower u t) refl
          safe,
      any-contains-false is_table_char
          (codes "/*"
            ∷ codes "*/"
            ∷ codes "<script"
            ∷ codes "</script"
            ∷ codes "eval("
            ∷ codes "expression("
            ∷ codes "import("
            ∷ codes "require("
            ∷ [])
          (lower u t) refl safe,
    )

-- `ValidateTableName` accepts exactly the names of 3 to 255 bytes in the characters of
-- `^[a-zA-Z0-9_.-]+$` that do not contain two dashes in a row.
pub validate_table_name_iff :
    (u : Unicode) (name : Text)
    → (validate_table_name u name ≡ none) ↔ (
        (3 ≤ len name)
        × (len name ≤ 255)
        × (matches_table_name name ≡ true)
        × (contains (codes "--") name ≡ false))
unfolding validate_table_name
validate_table_name_iff u name = elim (Bool-cases (matches_table_name name)) [
  | inl fits ↦
      rw (fits, dangerous_dashes u name (matches_all name fits))
        (λ h. ground arith, λ h. ground arith)
  | inr other ↦ rw other (λ h. ground arith, λ h. ground arith)
]

-- Every table name that `ValidateTableName` accepts is also accepted as an index name.
pub validate_table_name-validate_index_name :
    (u : Unicode) (name : Text)
    → validate_table_name u name ≡ none
    → validate_index_name name ≡ none
unfolding validate_table_name validate_index_name
validate_table_name-validate_index_name u [] h = refl
validate_table_name-validate_index_name u (c ∷ t) h = ground arith
