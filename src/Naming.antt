-- ===== src/Naming.antt =====
-- pkg/naming/naming.go: the attribute names of struct fields. The two regular expressions are written
-- out as tests. A field is its name and its `dynamorm` tag.
pub mod Valid
use dynamorm.Base.{
  ℕ, suc, Bool, true, false, not, ◌&&◌, ◌||◌, ◌==◌, Option, none, some, List, [], ◌∷◌, ◌++◌, all,
  take, drop, if◌then◌else◌,
}
use dynamorm.Base.Text.{
  Text, Unicode, codes, text_eq, has_prefix, split, within, is_digit, is_letter, lower, trim_space,
}

pub data Convention : Type 0 where
  camel_case snake_case : Convention

pub data NamingError : Type 0 where
  empty_name not_camel_case not_snake_case : NamingError

unfoldable pub is_small : ℕ → Bool
is_small c = within b'a' b'z' c

unfoldable pub is_alphanumeric : ℕ → Bool
is_alphanumeric c = is_letter c || is_digit c

-- `camelCasePattern`
unfoldable pub matches_camel : Text → Bool
matches_camel [] = false
matches_camel (c ∷ t) = is_small c && all is_alphanumeric t

-- `snakeCasePattern` behind a letter or digit, or behind an underscore.
unfoldable pub snake_rest : Bool → Text → Bool
unfolding is_small
snake_rest after_underscore [] = not after_underscore
snake_rest after_underscore (c ∷ t) =
    let inside = snake_rest false t in
    let parted = snake_rest true t in
    if is_small c || is_digit c then inside else c == b'_' && not after_underscore && parted

-- `snakeCasePattern`
unfoldable pub matches_snake : Text → Bool
matches_snake [] = false
matches_snake (c ∷ t) = is_small c && snake_rest false t

unfoldable pub is_key_name : Text → Bool
is_key_name name = text_eq name (codes "PK") || text_eq name (codes "SK")

-- `ValidateAttrName`
unfoldable pub validate_attr_name : Text → Convention → Option NamingError
validate_attr_name [] convention = some empty_name
validate_attr_name (c ∷ t) snake_case =
    if not (matches_snake (c ∷ t)) then some not_snake_case else none
validate_attr_name (c ∷ t) camel_case =
    if is_key_name (c ∷ t)
    then none
    else if not (matches_camel (c ∷ t))
    then some not_camel_case
    else none

module _ (u : Unicode) where
  -- The loop of `DefaultAttrName`, over the runes from the boundary on.
  unfoldable pub boundary_loop : ℕ → Text → ℕ
  boundary_loop boundary [] = boundary
  boundary_loop boundary (c ∷ []) = if not (u.is_upper c) then boundary else suc boundary
  boundary_loop boundary (c ∷ d ∷ t) =
      let rest = boundary_loop (suc boundary) (d ∷ t) in
      if not (u.is_upper c) then boundary else if not (u.is_upper d) then boundary else rest

  -- `DefaultAttrName`
  unfoldable pub default_attr_name : Text → Text
  default_attr_name [] = []
  default_attr_name (c ∷ []) = lower u (c ∷ [])
  default_attr_name (c ∷ d ∷ t) =
      if is_key_name (c ∷ d ∷ t)
      then c ∷ d ∷ t
      else let boundary = boundary_loop 1 (d ∷ t) in
        lower u (take boundary (c ∷ d ∷ t)) ++ drop boundary (c ∷ d ∷ t)

  next_is_lower : Text → Bool
  next_is_lower [] = false
  next_is_lower (d ∷ t) = u.is_lower d

  -- Whether `ToSnakeCase` writes an underscore in front of a capital.
  breaks : ℕ → Text → Bool
  unfolding next_is_lower
  breaks prev t =
      not (u.is_decimal prev) && (u.is_lower prev || (u.is_upper prev && next_is_lower t))

  -- The loop of `ToSnakeCase` behind its first rune.
  unfoldable pub snake_loop : ℕ → Text → Text
  unfolding breaks
  snake_loop prev [] = []
  snake_loop prev (c ∷ t) =
      let rest = u.to_lower c ∷ snake_loop c t in
      if u.is_upper c && breaks prev t then b'_' ∷ rest else rest

  -- `ToSnakeCase`
  unfoldable pub to_snake_case : Text → Text
  to_snake_case [] = []
  to_snake_case (c ∷ t) = u.to_lower c ∷ snake_loop c t

  -- `ConvertAttrName`
  unfoldable pub convert_attr_name : Text → Convention → Text
  convert_attr_name name snake_case = to_snake_case name
  convert_attr_name name camel_case = default_attr_name name

  -- The loop of `attrFromTag`.
  unfoldable pub attr_of_parts : List Text → Text
  attr_of_parts [] = []
  attr_of_parts (part ∷ parts) =
      let p = trim_space part in
      if has_prefix (codes "attr:") p then drop 5 p else attr_of_parts parts

  unfoldable pub attr_from_tag : Text → Text
  attr_from_tag [] = []
  attr_from_tag (c ∷ t) = attr_of_parts (split b',' (c ∷ t))

  abbrev or_default : Text → Text → Text
  or_default [] other = other
  or_default (c ∷ t) other = c ∷ t

  -- `ResolveAttrNameWithConvention`; `none` is a field to skip.
  unfoldable pub resolve_attr_name_with_convention : Text → Text → Convention → Option Text
  resolve_attr_name_with_convention name tag convention =
      if text_eq tag (codes "-")
      then none
      else some (or_default (attr_from_tag tag) (convert_attr_name name convention))
