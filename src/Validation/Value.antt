-- ===== src/Validation/Value.antt =====
-- pkg/validation/field_validator.go: `ValidateValue` on the values of Go's `any` that it tells
-- apart. A map is the list of its entries in the order in which the loop meets them.
pub mod Deep
use Prim.Native.String.{String}
use dynamorm.Base.{
  ℕ, zero, suc, ◌+◌, Bool, true, false, not, ◌&&◌, ◌||◌, Option, none, some, List, [], ◌∷◌, any,
  length, ltb, if◌then◌else◌,
}
use dynamorm.Base.Int.{ℤ}
use dynamorm.Base.Text.{Text, Unicode, codes, len, lower, contains, has_suffix}
use dynamorm.Validation.Error.{Check, reject, fail_if, ◌>?◌}
use dynamorm.Validation.Patterns.{contains_any_substring}
use dynamorm.Validation.Field.{validate_field_name}

-- `reflect.Kind`, as far as `validateBasicValue` looks at it.
pub data Kind : Type 0 where
  func chan unsafe_pointer uintptr invalid complex : Kind  -- refused
  struct slice map array : Kind
  bool sized_int uint float string interface : Kind

-- A value that only reflection looks at: pointers and interfaces are unwrapped.
pub data Basic : Type 0 where
  nil_pointer : Basic
  pointer : Basic → Basic
  of_kind : Kind → Basic

mutual
  pub data Value : Type 0 where
    nil : Value
    str : Text → Value
    slice_of : Items → Value  -- []any
    map_of : Entries → Value  -- map[string]any
    string_map : List (Text × Text) → Value
    int_map : List (Text × ℤ) → Value
    strings : List Text → Value  -- []string
    ints : List ℤ → Value  -- []int
    scalar_slice : ℕ → Value  -- a slice of another built-in scalar type, by its length
    int_of : ℤ → Value
    basic : Basic → Value

  pub data Items : Type 0 where
    end : Items
    item : Value → Items → Items

  pub data Entries : Type 0 where
    last : Entries
    entry : Text → Value → Entries → Entries

abbrev pub max_value_string_length : ℕ
max_value_string_length = 400000

abbrev pub max_collection : ℕ
max_collection = 100

abbrev pub value_script_patterns : List Text
value_script_patterns =
    codes "<script"
    ∷ codes "</script"
    ∷ codes "eval("
    ∷ codes "expression("
    ∷ codes "import("
    ∷ codes "require("
    ∷ codes "javascript:"
    ∷ codes "vbscript:"
    ∷ codes "onload="
    ∷ codes "onerror="
    ∷ codes "onclick="
    ∷ []

abbrev pub value_sql_injection_patterns : List Text
value_sql_injection_patterns =
    codes "'; drop table"
    ∷ codes "'; delete from"
    ∷ codes "'; update "
    ∷ codes "'; insert into"
    ∷ codes "\"; drop table"
    ∷ codes "\"; delete from"
    ∷ codes "\"; update "
    ∷ codes "\"; insert into"
    ∷ codes "' or 1=1"
    ∷ codes "\" or 1=1"
    ∷ codes "' or '1'='1"
    ∷ codes "\" or \"1\"=\"1"
    ∷ codes "/**/union/**/select"
    ∷ codes "concat(0x"
    ∷ codes "char("
    ∷ codes "load_file("
    ∷ codes "--"
    ∷ []

unfoldable pub looks_like_union_select_injection : Text → Text → Bool
looks_like_union_select_injection string_lower raw =
    contains (codes "union") string_lower
    && contains (codes "select") string_lower
    && (contains (codes "union select") string_lower
        || contains (codes "union all select") string_lower
        || contains (codes "union/**/select") string_lower)
    && (contains (codes "from") string_lower
        || contains (codes "*") string_lower
        || has_suffix (codes "--") raw
        || has_suffix (codes ";") raw)

unfoldable pub validate_string_value : Unicode → Text → Check
validate_string_value u s =
    let string_lower = lower u s in
    fail_if (ltb max_value_string_length (len s))
      (reject "InvalidValue" "string value exceeds maximum length")
    >? fail_if
        (contains_any_substring string_lower value_script_patterns
          || (contains (codes "/*") s && contains (codes "*/") s)
          || contains_any_substring string_lower value_sql_injection_patterns
          || looks_like_union_select_injection string_lower s)
        (reject "InjectionAttempt" "string value contains dangerous pattern")

kind_refused : Kind → Bool
kind_refused func = true
kind_refused chan = true
kind_refused unsafe_pointer = true
kind_refused uintptr = true
kind_refused invalid = true
kind_refused complex = true
kind_refused _ = false

unfoldable pub validate_basic_value : Basic → Check
unfolding kind_refused
validate_basic_value nil_pointer = none
validate_basic_value (pointer b) = validate_basic_value b
validate_basic_value (of_kind k) =
    fail_if (kind_refused k) (reject "InvalidValue" "unsupported value type")

-- What a loop returns for a nested error.
abbrev pub wrap : String → Check → Check
wrap detail none = none
wrap detail (some e) = reject "InvalidValue" detail

abbrev pub count_items : Items → ℕ
count_items end = 0
count_items (item v vs) = suc (count_items vs)

abbrev pub count_entries : Entries → ℕ
count_entries last = 0
count_entries (entry k v es) = suc (count_entries es)

abbrev pub limited : ℕ → String → Check
limited n detail = fail_if (ltb max_collection n) (reject "InvalidValue" detail)

validate_string_map : Unicode → List (Text × Text) → Check
validate_string_map u [] = none
validate_string_map u ((key, value) ∷ m) =
    wrap "invalid map key" (validate_field_name u key)
    >? wrap "invalid map value" (validate_string_value u value)
    >? validate_string_map u m

unfoldable pub validate_int_map : Unicode → List (Text × ℤ) → Check
validate_int_map u [] = none
validate_int_map u ((key, value) ∷ m) =
    wrap "invalid map key" (validate_field_name u key)
    >? wrap "invalid map value" (validate_basic_value (of_kind sized_int))
    >? validate_int_map u m

unfoldable mutual
  unfolding validate_string_map validate_int_map

  pub validate_value : Unicode → Value → Check
  validate_value u nil = none
  validate_value u (str s) = validate_string_value u s
  validate_value u (slice_of vs) =
      limited (count_items vs) "slice value exceeds maximum length of 100 items"
      >? validate_items u vs
  validate_value u (map_of es) =
      limited (count_entries es) "map value exceeds maximum keys" >? validate_entries u es
  validate_value u (string_map m) =
      limited (length m) "map value exceeds maximum keys" >? validate_string_map u m
  validate_value u (int_map m) =
      limited (length m) "map value exceeds maximum keys" >? validate_int_map u m
  validate_value u (strings xs) = limited (length xs) "slice value exceeds maximum length"
  validate_value u (ints xs) = limited (length xs) "slice value exceeds maximum length"
  validate_value u (int_of n) = validate_basic_value (of_kind sized_int)
  validate_value u (scalar_slice n) = limited n "slice value exceeds maximum length"
  validate_value u (basic b) = validate_basic_value b

  pub validate_items : Unicode → Items → Check
  validate_items u end = none
  validate_items u (item v vs) =
      wrap "invalid item in collection" (validate_value u v) >? validate_items u vs

  pub validate_entries : Unicode → Entries → Check
  validate_entries u last = none
  validate_entries u (entry key v es) =
      wrap "invalid map key" (validate_field_name u key)
      >? wrap "invalid map value" (validate_value u v)
      >? validate_entries u es
