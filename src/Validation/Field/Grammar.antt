-- ===== src/Validation/Field/Grammar.antt =====
-- The field names that `ValidateFieldName` accepts, described without its searches for dangerous
-- patterns and control characters.
use dynamorm.Base.{
  ℕ, ◌≤◌, ◌≡◌, ◌≢◌, refl, ◌↔◌, inl, inr, Bool, true, false, ◌||◌, none, List, [], ◌∷◌, ◌++◌, any,
  all, length, arith, if◌then◌else◌, Option-cases, Bool-cases, ◌==◌, All,
}
use dynamorm.Base.Text.{Text, Unicode, len, has_char, split, lower, is_control, is_digit}
use dynamorm.Base.Text.Search.{any-contains-false}
use dynamorm.Base.Text.Split.{split-all, split_alone}
use dynamorm.Validation.Patterns.{
  matches_number, is_word, dangerous_patterns, sql_keywords, contains_any_substring,
}
use dynamorm.Validation.Error.{Check}
use dynamorm.Validation.Field.{
  max_field_name_length, max_nested_depth, keyword_refused, validate_field_name_basics,
  validate_field_name_keywords, validate_field_part, part_refused, validate_nested_field_path,
  validate_field_name,
}
use dynamorm.Validation.Field.Part.{
  IsFieldPart, plain_part, list_element, identifier_word, validate_field_part_iff,
}

-- The characters of field names: those of words, the dot and the brackets.
abbrev pub is_safe : ℕ → Bool
is_safe c = is_word c || c == b'.' || c == b'[' || c == b']'

-- What `ValidateFieldName` accepts.
pub record IsFieldName (u : Unicode) (field : Text) : Type 0 where
  pub nonempty : field ≢ []
  pub length_bound : len field ≤ max_field_name_length
  pub no_keyword : any (keyword_refused (lower u field) field) sql_keywords ≡ false
  pub depth_bound : length (split b'.' field) ≤ max_nested_depth
  pub parts : All IsFieldPart (split b'.' field)

all-append : (p : ℕ → Bool) (s t : Text) → all p s ≡ true → all p t ≡ true → all p (s ++ t) ≡ true
all-append p [] t h k = k
all-append p (c ∷ s) t h k = ground (arith, all-append p s t)

all_weaken : (t : Text) → all is_word t ≡ true → all is_safe t ≡ true
all_weaken [] h = refl
all_weaken (c ∷ t) h = ground (arith, all_weaken t)

digits_safe : (t : Text) → all is_digit t ≡ true → all is_safe t ≡ true
digits_safe [] h = refl
digits_safe (c ∷ t) h = ground (arith, digits_safe t)

number_safe : (t : Text) → matches_number t ≡ true → all is_safe t ≡ true
unfolding matches_number
number_safe [] h = refl
number_safe (c ∷ t) h = ground (arith, digits_safe t)

pub IsFieldPart-safe : {part : Text} → IsFieldPart part → all is_safe part ≡ true
IsFieldPart-safe {part} (plain_part h) = all_weaken part (identifier_word part h)
IsFieldPart-safe (list_element name index h k e) = rw e (
    all-append is_safe name _ (all_weaken name (identifier_word name h))
      (all-append is_safe index (b']' ∷ []) (number_safe index k) refl))

lower_safe : (u : Unicode) (c : ℕ) → is_safe c ≡ true → is_safe (u.to_lower c) ≡ true
lower_safe u c h = ground (arith, u.to_lower-ascii c)

pub lower-safe : (u : Unicode) (t : Text) → all is_safe t ≡ true → all is_safe (lower u t) ≡ true
unfolding lower
lower-safe u [] h = refl
lower-safe u (c ∷ t) h = ground (arith, lower_safe u c, lower-safe u t)

pub not_dangerous :
    (u : Unicode) (t : Text)
    → all is_safe t ≡ true
    → contains_any_substring (lower u t) dangerous_patterns ≡ false
not_dangerous u t h =
    any-contains-false is_safe dangerous_patterns (lower u t) refl (lower-safe u t h)

no_control : (t : Text) → all is_safe t ≡ true → any is_control t ≡ false
no_control [] h = refl
no_control (c ∷ t) h = ground (arith, no_control t)

part_refused_iff : (p : Text) → (part_refused p ≡ false) ↔ (validate_field_part p ≡ none)
part_refused_iff p = elim (Option-cases (validate_field_part p)) [
  | inl e ↦ (λ h. e, λ h. rw (e, part_refused))
  | inr (x, e) ↦ (λ h. cc (rw (e, part_refused) at h), λ h. cc (h, e))
]

parts_accepted : (parts : List Text) → any part_refused parts ≡ false → All IsFieldPart parts
parts_accepted [] h = tt
parts_accepted (p ∷ ps) h = (
  (validate_field_part_iff p).0 ((part_refused_iff p).0 (ground arith)),
  parts_accepted ps (ground arith),
)

accepted_parts : (parts : List Text) → All IsFieldPart parts → any part_refused parts ≡ false
accepted_parts [] h = refl
accepted_parts (p ∷ ps) h =
    rw ((part_refused_iff p).1 ((validate_field_part_iff p).1 h.0)) (accepted_parts ps h.1)

-- The last branch: with no dot the one part is the field itself.
abbrev last_check : Text → Check
last_check field =
    if has_char b'.' field then validate_nested_field_path field else validate_field_part field

last_sound :
    (field : Text)
    → last_check field ≡ none
    → (length (split b'.' field) ≤ max_nested_depth) × All IsFieldPart (split b'.' field)
last_sound field h = elim (Bool-cases (has_char b'.' field)) [
  | inl dotted ↦
      let k : validate_nested_field_path field ≡ none = rw dotted at h in
      unfold validate_nested_field_path in
      (ground arith, parts_accepted (split b'.' field) (ground arith))
  | inr plain ↦
      let k : validate_field_part field ≡ none = rw plain at h in
      rw (split_alone b'.' field plain) (omega arith, ((validate_field_part_iff field).0 k, tt))
]

last_complete :
    (field : Text)
    → length (split b'.' field) ≤ max_nested_depth
    → All IsFieldPart (split b'.' field)
    → last_check field ≡ none
last_complete field d a = elim (Bool-cases (has_char b'.' field)) [
  | inl dotted ↦
      rw dotted
        (unfold validate_nested_field_path in ground (arith, accepted_parts (split b'.' field) a))
  | inr plain ↦
      rw plain ((validate_field_part_iff field).1 (rw (split_alone b'.' field plain) at a).0)
]

parts_safe : (ps : List Text) → All IsFieldPart ps → All (λ p. all is_safe p ≡ true) ps
parts_safe [] h = tt
parts_safe (p ∷ ps) h = (IsFieldPart-safe h.0, parts_safe ps h.1)

pub IsFieldName-safe :
    (u : Unicode) (field : Text) → All IsFieldPart (split b'.' field) → all is_safe field ≡ true
IsFieldName-safe u field h = split-all is_safe b'.' field refl (parts_safe (split b'.' field) h)

basics_iff :
    (field : Text)
    → (validate_field_name_basics field ≡ none)
      ↔ ((field ≢ []) × (len field ≤ max_field_name_length))
unfolding validate_field_name_basics
basics_iff [] = ground arith
basics_iff (c ∷ t) = ground arith

accepts : (u : Unicode) (field : Text) → validate_field_name u field ≡ none → IsFieldName u field
unfolding validate_field_name validate_field_name_keywords
accepts u field h =
    let last = last_sound field (ground arith) in
    let basics = (basics_iff field).0 (ground arith) in
    record {
      nonempty = basics.0;
      length_bound = basics.1;
      no_keyword = ground arith;
      depth_bound = last.0;
      parts = last.1;
    }

accepted : (u : Unicode) (field : Text) → IsFieldName u field → validate_field_name u field ≡ none
unfolding validate_field_name validate_field_name_keywords
accepted u field h =
    let safe = IsFieldName-safe u field h.parts in
    rw
      (
        (basics_iff field).1 (h.nonempty, h.length_bound),
        not_dangerous u field safe,
        h.no_keyword,
        no_control field safe,
      )
      (last_complete field h.depth_bound h.parts)

-- `ValidateFieldName` accepts exactly the field names of at most 255 bytes whose at most 32 parts
-- between dots are identifiers, each with at most one decimal index in brackets, and that show no
-- SQL keyword in a suspicious place. Its searches for dangerous patterns and for control
-- characters never change that verdict.
pub validate_field_name_iff :
    (u : Unicode) (field : Text) → (validate_field_name u field ≡ none) ↔ IsFieldName u field
validate_field_name_iff u field = (accepts u field, accepted u field)
