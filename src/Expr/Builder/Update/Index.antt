-- ===== src/Expr/Builder/Update/Index.antt =====
-- internal/expr/builder.go: `parseListIndexOperation` reads back what a list index is written as.
use dynamorm.Base.{
  ℕ, suc, ◌+◌, ◌-◌, ◌≤◌, ◌≡◌, refl, true, false, some, [], ◌∷◌, ◌++◌, arith, length, length-append,
  take, drop, take-append_length,
}
use dynamorm.Base.Decimal.{decimal, value_from-decimal, decimal-all, decimal_nonempty}
use dynamorm.Base.Text.{Text, has_char, has_suffix, has_prefix, is_digit}
use dynamorm.Base.Text.Search.{has_char-append, has_char-all, last_index_of_before}
use mathlib.Core.List.{reverse-append, append_assoc}
use dynamorm.Expr.Builder.Update.{indexed, max_int, parse_index_at, parse_list_index_operation}

-- `name[i]`
abbrev pub element_path : Text → ℕ → Text
element_path name i = name ++ (b'[' ∷ (decimal i ++ b']' ∷ []))

has_suffix-last : (s : Text) (c : ℕ) → has_suffix (c ∷ []) (s ++ c ∷ []) ≡ true
unfolding has_suffix has_prefix
has_suffix-last s c = rw (reverse-append s (c ∷ [])) (ground arith)

suffixed :
    (name : Text) (t : Text) (c d : ℕ) → has_suffix (d ∷ []) (name ++ (c ∷ (t ++ d ∷ []))) ≡ true
suffixed name t c d =
    rw (← (append_assoc name (c ∷ t) (d ∷ []))) (has_suffix-last (name ++ c ∷ t) d)

no_bracket : (i : ℕ) → has_char b'[' (decimal i ++ b']' ∷ []) ≡ false
no_bracket i =
    rw
      (
        has_char-append b'[' (decimal i) (b']' ∷ []),
        has_char-all is_digit b'[' (decimal i) refl (decimal-all i),
      )
      (unfold has_char in refl)

bracket : (name t : Text) → has_char b'[' (name ++ b'[' ∷ t) ≡ true
bracket name t = rw (has_char-append b'[' name (b'[' ∷ t)) (unfold has_char in ground arith)

drop_behind : (name t : Text) (c : ℕ) → drop (suc (length name)) (name ++ c ∷ t) ≡ t
drop_behind [] t c = refl
drop_behind (d ∷ name) t c = drop_behind name t c

part_is :
    (name : Text) (i : ℕ)
    → take
        (length (element_path name i) - 1 - (suc (length name)))
        (drop (suc (length name)) (element_path name i))
      ≡ decimal i
part_is name i =
    let r = decimal i ++ b']' ∷ [] in
    let size : length (element_path name i) - 1 - (suc (length name)) ≡ length (decimal i) =
      omega (arith, length-append name (b'[' ∷ r), length-append (decimal i) (b']' ∷ [])) in
    rw (size, drop_behind name r b'[') (take-append_length (decimal i) (b']' ∷ []))

parse_index_at-element_path :
    (name : Text) (i : ℕ)
    → 1 ≤ length name
    → i ≤ max_int
    → parse_index_at (element_path name i) (some (length name)) ≡ indexed name i
unfolding parse_index_at
parse_index_at-element_path name i h k =
    let size : length (element_path name i) ≡ length name + suc (length (decimal i) + 1) = omega (
      arith,
      length-append name (b'[' ∷ (decimal i ++ b']' ∷ [])),
      length-append (decimal i) (b']' ∷ []),
    ) in
    rw
      (
        part_is name i,
        parse_index_at,
        decimal_nonempty i,
        decimal-all i,
        value_from-decimal i,
        take-append_length name (b'[' ∷ (decimal i ++ b']' ∷ [])),
      )
      (ground (arith, size))

-- A name that is not empty and a list index up to the largest int, written `name[i]` with `i` in
-- decimal, are what `parseListIndexOperation` reads back from it.
pub parse-element_path :
    (name : Text) (i : ℕ)
    → 1 ≤ length name
    → i ≤ max_int
    → parse_list_index_operation (element_path name i) ≡ indexed name i
unfolding parse_list_index_operation
parse-element_path name i h k =
    rw
      (
        bracket name (decimal i ++ b']' ∷ []),
        parse_list_index_operation,
        suffixed name (decimal i) b'[' b']',
        last_index_of_before b'[' name (decimal i ++ b']' ∷ []) (no_bracket i),
      )
      (parse_index_at-element_path name i h k)
