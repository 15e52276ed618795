-- ===== src/Validation/Field/Nested.antt =====
-- An accepted path is accepted part by part: what `addNameSecure` of internal/expr relies on when
-- it validates a nested name again, part by part.
use mathlib.Core.List.{map-append}
use dynamorm.Base.{
  ℕ, ◌≤◌, ◌≡◌, ◌≢◌, refl, ◌⊎◌, inl, inr, Bool, true, false, ◌||◌, none, List, [], ◌∷◌, ◌++◌, any,
  all, arith, Bool-cases, ◌==◌, All,
}
use dynamorm.Base.Text.{Text, Unicode, len, contains, has_char, split, lower}
use dynamorm.Base.Text.Case.{contains-map, contains-left, contains-tail}
use dynamorm.Base.Text.Search.{text_eq_iff, contains-all}
use dynamorm.Base.Text.Split.{Beside, split-Beside, split-has_char, split_alone, len-contains}
use dynamorm.Validation.Patterns.{is_word, sql_keywords}
use dynamorm.Validation.Field.{
  is_standalone_or_suspicious_keyword, keyword_refused, validate_field_part, validate_field_name,
}
use dynamorm.Validation.Field.Legitimate.{legitimate-undotted}
use dynamorm.Validation.Field.Part.{IsFieldPart, validate_field_part_iff}
use dynamorm.Validation.Field.Grammar.{
  is_safe, IsFieldName, IsFieldPart-safe, validate_field_name_iff,
}

abbrev is_part_char : ℕ → Bool
is_part_char c = is_word c || c == b'[' || c == b']'

undotted_part :
    (t : Text) → all is_safe t ≡ true → has_char b'.' t ≡ false → all is_part_char t ≡ true
unfolding has_char
undotted_part [] h k = refl
undotted_part (c ∷ t) h k = ground (arith, undotted_part t)

lower-part :
    (u : Unicode) (t : Text) → all is_part_char t ≡ true → all is_part_char (lower u t) ≡ true
unfolding lower
lower-part u [] h = refl
lower-part u (c ∷ t) h = ground (arith, u.to_lower-ascii c, lower-part u t)

all_snoc : (p : ℕ → Bool) (s : Text) (c : ℕ) → all p (s ++ c ∷ []) ≡ true → p c ≡ true
all_snoc p [] c h = ground arith
all_snoc p (d ∷ s) c h = all_snoc p s c (ground arith)

no_suffixed :
    (s t : Text) (c : ℕ)
    → is_part_char c ≡ false
    → all is_part_char t ≡ true
    → contains (s ++ c ∷ []) t ≡ false
no_suffixed s t c e h = elim (Bool-cases (contains (s ++ c ∷ []) t)) [
  | inl found ↦
      cc (all_snoc is_part_char s c (contains-all is_part_char (s ++ c ∷ []) t found h), e)
  | inr absent ↦ absent
]

no_prefixed :
    (s t : Text) (c : ℕ)
    → is_part_char c ≡ false
    → all is_part_char t ≡ true
    → contains (c ∷ s) t ≡ false
no_prefixed s t c e h = elim (Bool-cases (contains (c ∷ s) t)) [
  | inl found ↦ let a = contains-all is_part_char (c ∷ s) t found h in ground arith
  | inr absent ↦ absent
]

-- In a part the only suspicious place of a keyword is the whole part.
suspicious_part :
    (t keyword : Text)
    → all is_part_char t ≡ true
    → is_standalone_or_suspicious_keyword t keyword ≡ true
    → t ≡ keyword
unfolding is_standalone_or_suspicious_keyword
suspicious_part t keyword h s = ground (
  arith,
  text_eq_iff t keyword,
  no_suffixed keyword t b';' refl h,
  no_suffixed keyword t b' ' refl h,
  no_suffixed keyword t b'.' refl h,
  no_suffixed keyword t b'-' refl h,
  no_prefixed keyword t b';' refl h,
  no_prefixed keyword t b' ' refl h,
  no_prefixed keyword t b'.' refl h,
  no_prefixed keyword t b'-' refl h,
)

lower_dot : (u : Unicode) → u.to_lower b'.' ≡ b'.'
lower_dot u = u.to_lower-ascii b'.' (omega arith)

lower-suffixed :
    (u : Unicode) (p f : Text)
    → contains (p ++ b'.' ∷ []) f ≡ true
    → contains (lower u p ++ b'.' ∷ []) (lower u f) ≡ true
unfolding lower
lower-suffixed u p f h =
    rw (map-append, lower_dot u) at (contains-map u.to_lower (p ++ b'.' ∷ []) f h)

lower-prefixed :
    (u : Unicode) (p f : Text)
    → contains (b'.' ∷ p) f ≡ true
    → contains (b'.' ∷ lower u p) (lower u f) ≡ true
unfolding lower
lower-prefixed u p f h = rw (lower_dot u) at (contains-map u.to_lower (b'.' ∷ p) f h)

-- A keyword that is a whole part of a path stands in a suspicious place of the path.
suspicious_path :
    (keyword f : Text)
    → (contains (keyword ++ b'.' ∷ []) f ≡ true) ⊎ (contains (b'.' ∷ keyword) f ≡ true)
    → (contains keyword f ≡ true) × (is_standalone_or_suspicious_keyword f keyword ≡ true)
unfolding is_standalone_or_suspicious_keyword
suspicious_path keyword f (inl h) = (contains-left keyword (b'.' ∷ []) f h, ground arith)
suspicious_path keyword f (inr h) = (contains-tail b'.' keyword f h, ground arith)

keyword_moves :
    (u : Unicode) (f p keyword : Text)
    → has_char b'.' f ≡ true
    → all is_part_char p ≡ true
    → Beside b'.' f p
    → keyword_refused (lower u p) p keyword ≡ true
    → keyword_refused (lower u f) f keyword ≡ true
unfolding keyword_refused
keyword_moves u f p keyword dotted chars beside h =
    let whole : lower u p ≡ keyword =
      suspicious_part (lower u p) keyword (lower-part u p chars) (ground arith) in
    let near : (contains (keyword ++ b'.' ∷ []) (lower u f) ≡ true)
        ⊎ (contains (b'.' ∷ keyword) (lower u f) ≡ true) =
      elim beside [
        | inl behind ↦ inl (rw whole at (lower-suffixed u p f behind))
        | inr before ↦ inr (rw whole at (lower-prefixed u p f before))
      ] in
    rw (
      (suspicious_path keyword (lower u f) near).0,
      (suspicious_path keyword (lower u f) near).1,
      legitimate-undotted f dotted,
    )

any_moves :
    (q r : Text → Bool) (xs : List Text)
    → ((x : Text) → q x ≡ true → r x ≡ true)
    → any r xs ≡ false
    → any q xs ≡ false
any_moves q r [] f h = refl
any_moves q r (x ∷ xs) f h = ground (arith, f x, any_moves q r xs f)

Beside-len : (f p : Text) → Beside b'.' f p → len p ≤ len f
Beside-len f p (inl h) = len-contains p f (contains-left p (b'.' ∷ []) f h)
Beside-len f p (inr h) = len-contains p f (contains-tail b'.' p f h)

IsFieldPart-ne-nil : (p : Text) → IsFieldPart p → p ≢ []
IsFieldPart-ne-nil p part e =
    let h : validate_field_part [] ≡ none = rw e at ((validate_field_part_iff p).1 part) in
    unfold validate_field_part in cc h

part-IsFieldName :
    (u : Unicode) (f p : Text)
    → IsFieldName u f
    → has_char b'.' f ≡ true
    → IsFieldPart p
    → has_char b'.' p ≡ false
    → Beside b'.' f p
    → IsFieldName u p
part-IsFieldName u f p v dotted part alone beside =
    let chars = undotted_part p (IsFieldPart-safe part) alone in
    record {
      nonempty = IsFieldPart-ne-nil p part;
      length_bound = omega (arith, Beside-len f p beside, v.length_bound);
      no_keyword =
          any_moves (keyword_refused (lower u p) p) (keyword_refused (lower u f) f) sql_keywords
            (λ k. keyword_moves u f p k dotted chars beside) v.no_keyword;
      depth_bound = rw (split_alone b'.' p alone) (omega arith);
      parts = rw (split_alone b'.' p alone) (part, tt);
    }

All-parts :
    (u : Unicode) (f : Text) (ps : List Text)
    → IsFieldName u f
    → has_char b'.' f ≡ true
    → All IsFieldPart ps
    → All (λ p. has_char b'.' p ≡ false) ps
    → All (Beside b'.' f) ps
    → All (λ p. validate_field_name u p ≡ none) ps
All-parts u f [] v d a b c = tt
All-parts u f (p ∷ ps) v d a b c = (
  (validate_field_name_iff u p).1 (part-IsFieldName u f p v d a.0 b.0 c.0),
  All-parts u f ps v d a.1 b.1 c.1,
)

-- If `ValidateFieldName` accepts a name with dots, it also accepts each part between the dots as a
-- name of its own, its keyword check included.
pub validate_field_name-split :
    (u : Unicode) (field : Text)
    → validate_field_name u field ≡ none
    → has_char b'.' field ≡ true
    → All (λ part. validate_field_name u part ≡ none) (split b'.' field)
validate_field_name-split u field h dotted =
    let v = (validate_field_name_iff u field).0 h in
    All-parts u field (split b'.' field) v dotted v.parts (split-has_char b'.' field)
      (split-Beside b'.' field dotted)
