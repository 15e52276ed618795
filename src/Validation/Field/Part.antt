-- ===== src/Validation/Field/Part.antt =====
-- The parts that `validateFieldPart` accepts, as a grammar of their own.
use mathlib.Core.List.{append_assoc}
use dynamorm.Base.{
  ℕ, suc, ◌+◌, ◌-◌, ◌<◌, ◌≡◌, refl, sym, ap, ◌∙◌, ◌↔◌, inl, inr, true, false, none, some, [], ◌∷◌,
  ◌++◌, all, length, take, drop, arith, Option-cases, take-append-drop, drop-drop, drop_all,
  take-append_length, length-append,
}
use dynamorm.Base.Text.{Text, text_eq, has_char, index_of, last_index_of}
use dynamorm.Base.Text.Search.{
  text_eq_iff, has_char-all, index_of-none, index_of_first, last_index_of_last, drop-index_of,
  drop-last_index_of,
}
use dynamorm.Validation.Patterns.{matches_identifier, matches_number, is_word}
use dynamorm.Validation.Field.{
  validate_bracketed_part, validate_plain_part, validate_part_at, validate_field_part,
}

-- `name[index]`
abbrev pub element : Text → Text → Text
element name index = name ++ (b'[' ∷ (index ++ b']' ∷ []))

pub data IsFieldPart (part : Text) : Type 0 where
  plain_part : matches_identifier part ≡ true → IsFieldPart part
  list_element :
      (name index : Text)
      → matches_identifier name ≡ true
      → matches_number index ≡ true
      → part ≡ element name index
      → IsFieldPart part

pub identifier_word : (t : Text) → matches_identifier t ≡ true → all is_word t ≡ true
unfolding matches_identifier
identifier_word [] h = cc
identifier_word (c ∷ t) h = ground arith

identifier_no_bracket : (t : Text) → matches_identifier t ≡ true → has_char b'[' t ≡ false
identifier_no_bracket t h = has_char-all is_word b'[' t refl (identifier_word t h)

plain_accepted : (part : Text) → matches_identifier part ≡ true → validate_field_part part ≡ none
unfolding validate_field_part validate_part_at validate_plain_part
plain_accepted [] h = unfold matches_identifier in cc h
plain_accepted (c ∷ t) h =
    rw (index_of-none b'[' (c ∷ t) (identifier_no_bracket (c ∷ t) h)) (ground arith)

-- The two brackets of an element are where the code looks for them.
element_indices :
    (name index : Text)
    → matches_identifier name ≡ true
    → (index_of b'[' (element name index) ≡ some (length name))
      × (last_index_of b']' (element name index) ≡ some (length name + suc (length index)))
element_indices name index h = (
  index_of_first b'[' name (index ++ b']' ∷ []) (identifier_no_bracket name h),
  ap (last_index_of b']') (sym (append_assoc name (b'[' ∷ index) (b']' ∷ [])))
      ∙ last_index_of_last b']' (name ++ b'[' ∷ index)
      ∙ ap some (length-append name (b'[' ∷ index)),
)

behind_name :
    (name index : Text) → drop (suc (length name)) (element name index) ≡ index ++ b']' ∷ []
behind_name [] index = refl
behind_name (c ∷ name) index = behind_name name index

behind_element :
    (name index : Text) → drop (suc (length name + suc (length index))) (element name index) ≡ []
behind_element name index = drop_all (suc (length name + suc (length index))) (element name index) (
    omega
      (arith, length-append name (b'[' ∷ (index ++ b']' ∷ [])), length-append index (b']' ∷ [])))

index_between :
    (name index : Text)
    → take
        (length name + suc (length index) - (length name + 1))
        (drop (suc (length name)) (element name index))
      ≡ index
index_between name index =
    let e : length name + suc (length index) - (length name + 1) ≡ length index = omega arith in
    rw (e, behind_name name index) (take-append_length index (b']' ∷ []))

bracketed_accepted :
    (name index : Text)
    → matches_identifier name ≡ true
    → matches_number index ≡ true
    → validate_bracketed_part (element name index) (length name) (length name + suc (length index))
      ≡ none
unfolding validate_bracketed_part
bracketed_accepted name index h k =
    rw
      (
        index_between name index,
        behind_element name index,
        take-append_length name (b'[' ∷ (index ++ b']' ∷ [])),
        h,
        k,
      )
      (unfold text_eq in ground arith)

element_accepted :
    (name index : Text)
    → matches_identifier name ≡ true
    → matches_number index ≡ true
    → validate_field_part (element name index) ≡ none
element_accepted [] index h k = unfold matches_identifier in cc h
element_accepted (c ∷ name) index h k =
    let (at_open, at_close) = element_indices (c ∷ name) index h in
    unfold validate_field_part validate_part_at in
    rw (at_open, at_close) (bracketed_accepted (c ∷ name) index h k)

accepted : (part : Text) → IsFieldPart part → validate_field_part part ≡ none
accepted part (plain_part h) = plain_accepted part h
accepted part (list_element name index h k e) = rw e (element_accepted name index h k)

-- The part between its brackets, when nothing follows the last one.
part-element :
    (part : Text) (i j : ℕ)
    → index_of b'[' part ≡ some i
    → last_index_of b']' part ≡ some j
    → i < j
    → drop (suc j) part ≡ []
    → part ≡ element (take i part) (take (j - (i + 1)) (drop (suc i) part))
part-element part i j hi hj lt rest =
    let k = j - (i + 1) in
    let to_close : suc i + k ≡ j = omega arith in
    let closing : drop k (drop (suc i) part) ≡ b']' ∷ [] =
      drop-drop k (suc i) part
      ∙ rw to_close (drop-last_index_of b']' part hj ∙ ap (◌∷◌ b']') rest) in
    sym (take-append-drop i part)
    ∙ ap (◌++◌ (take i part)) (
        drop-index_of b'[' part hi
        ∙ ap (◌∷◌ b'[') (
            sym (take-append-drop k (drop (suc i) part))
            ∙ ap (◌++◌ (take k (drop (suc i) part))) closing))

bracketed_tests :
    (part : Text) (i j : ℕ)
    → validate_bracketed_part part i j ≡ none
    → (i < j)
      × (matches_identifier (take i part) ≡ true)
      × (matches_number (take (j - (i + 1)) (drop (suc i) part)) ≡ true)
      × (drop (suc j) part ≡ [])
unfolding validate_bracketed_part
bracketed_tests part i j h = ground (arith, text_eq_iff (drop (suc j) part) [])

bracketed_sound :
    (part : Text) (i j : ℕ)
    → index_of b'[' part ≡ some i
    → last_index_of b']' part ≡ some j
    → validate_bracketed_part part i j ≡ none
    → IsFieldPart part
unfolding validate_bracketed_part
bracketed_sound part i j hi hj h =
    let (lt, nm, ix, rest) = bracketed_tests part i j h in
    list_element _ _ nm ix (part-element part i j hi hj lt rest)

sound : (part : Text) → validate_field_part part ≡ none → IsFieldPart part
unfolding validate_field_part validate_part_at validate_plain_part
sound [] h = cc
sound (c ∷ t) h = elim (Option-cases (index_of b'[' (c ∷ t))) [
  | inl no_open ↦ plain_part (ground arith)
  | inr (i, hi) ↦ elim (Option-cases (last_index_of b']' (c ∷ t))) [
    | inl no_close ↦ plain_part (ground arith)
    | inr (j, hj) ↦ bracketed_sound (c ∷ t) i j hi hj (ground arith)
  ]
]

-- `validateFieldPart` accepts exactly the identifiers of `[a-zA-Z_][a-zA-Z0-9_]*`, and these
-- followed by one decimal index in brackets.
pub validate_field_part_iff : (part : Text) → (validate_field_part part ≡ none) ↔ IsFieldPart part
validate_field_part_iff part = (sound part, accepted part)
