-- ===== src/Validation/Value/Deep.antt =====
-- `ValidateValue` reaches every value inside nested slices and maps.
use dynamorm.Base.{◌≤◌, ◌≡◌, false, ◌&&◌, none, length, arith, All}
use dynamorm.Base.Text.{Text, Unicode, codes, len, lower, contains}
use dynamorm.Validation.Field.Grammar.{IsFieldName}
use dynamorm.Validation.Patterns.{contains_any_substring}
use dynamorm.Validation.Value.{
  Value, str, slice_of, map_of, string_map, int_map, strings, ints, scalar_slice, Items, item,
  Entries, last, entry, max_value_string_length, max_collection, value_script_patterns,
  value_sql_injection_patterns, count_items, count_entries, validate_string_value, validate_value,
  validate_items, validate_entries,
}

-- A value is another one, or stands inside it.
mutual
  pub data Within (w : Value) : Value → Type 0 where
    here : {v : Value} → v ≡ w → Within w v
    in_slice : {vs : Items} → InItems w vs → Within w (slice_of vs)
    in_map : {es : Entries} → InEntries w es → Within w (map_of es)

  pub data InItems (w : Value) : Items → Type 0 where
    first_item : {v : Value} {vs : Items} → Within w v → InItems w (item v vs)
    later_item : {v : Value} {vs : Items} → InItems w vs → InItems w (item v vs)

  pub data InEntries (w : Value) : Entries → Type 0 where
    first_entry : {k : Text} {v : Value} {es : Entries} → Within w v → InEntries w (entry k v es)
    later_entry :
        {k : Text} {v : Value} {es : Entries} → InEntries w es → InEntries w (entry k v es)

mutual
  unfolding validate_value

  Within-accepted :
      (u : Unicode) {w v : Value}
      → Within w v
      → validate_value u v ≡ none
      → validate_value u w ≡ none
  Within-accepted u (here e) h = rw e at h
  Within-accepted u (in_slice {vs} i) h = InItems-accepted u i (ground arith)
  Within-accepted u (in_map {es} i) h = InEntries-accepted u i (ground arith)

  InItems-accepted :
      (u : Unicode) {w : Value} {vs : Items}
      → InItems w vs
      → validate_items u vs ≡ none
      → validate_value u w ≡ none
  InItems-accepted u (first_item {v} i) h = Within-accepted u i (ground arith)
  InItems-accepted u (later_item i) h = InItems-accepted u i (ground arith)

  InEntries-accepted :
      (u : Unicode) {w : Value} {es : Entries}
      → InEntries w es
      → validate_entries u es ≡ none
      → validate_value u w ≡ none
  InEntries-accepted u (first_entry i) h = Within-accepted u i (ground arith)
  InEntries-accepted u (later_entry i) h = InEntries-accepted u i (ground arith)

abbrev pub AllKeys : Unicode → Entries → Type 0
AllKeys u last = Unit
AllKeys u (entry k v es) = IsFieldName u k × AllKeys u es

-- What acceptance says of one value: a string is short and shows none of the listed patterns, a
-- slice or a map has at most 100 members, and every key of a map is an accepted field name.
abbrev pub IsBounded : Unicode → Value → Type 0
IsBounded u (str s) =
    (len s ≤ max_value_string_length)
    × (contains_any_substring (lower u s) value_script_patterns ≡ false)
    × (contains_any_substring (lower u s) value_sql_injection_patterns ≡ false)
    × ((contains (codes "/*") s && contains (codes "*/") s) ≡ false)
IsBounded u (slice_of vs) = count_items vs ≤ max_collection
IsBounded u (map_of es) = (count_entries es ≤ max_collection) × AllKeys u es
IsBounded u (string_map m) =
    (length m ≤ max_collection)
    × All (λ e. IsFieldName u e.0 × (validate_string_value u e.1 ≡ none)) m
IsBounded u (int_map m) = (length m ≤ max_collection) × All (λ e. IsFieldName u e.0) m
IsBounded u (strings xs) = length xs ≤ max_collection
IsBounded u (ints xs) = length xs ≤ max_collection
IsBounded u (scalar_slice n) = n ≤ max_collection
IsBounded u _ = Unit
