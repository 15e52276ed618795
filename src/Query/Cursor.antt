-- ===== src/Query/Cursor.antt =====
-- pkg/query/cursor.go: cursors as texts. `encoding/base64` and `encoding/json` are parameters, over
-- any types of their bytes and of encoded texts. A Go map is the list of its entries, under
-- different keys, in the order of the loop; `none` is an error.
pub mod RoundTrip
use mathlib.Core.Option
use dynamorm.Base.{ℕ, Bool, true, false, Option, none, some, List, [], ◌∷◌, map, if◌then◌else◌}
use dynamorm.Base.Text.{Text, codes, text_eq}

abbrev pub Bytes : Type 0
Bytes = List ℕ

-- types.AttributeValue; `unknown` is a value of none of its members. The slice of a set of texts may
-- be nil, which is `none`; a nil slice of the other members is written like the empty one.
mutual
  pub data AttributeValue : Type 0 where
    s n : Text → AttributeValue
    b : Bytes → AttributeValue
    bool null : Bool → AttributeValue
    l : AttributeValues → AttributeValue
    m : AttributeMap → AttributeValue
    ss ns : Option (List Text) → AttributeValue
    bs : List Bytes → AttributeValue
    unknown : AttributeValue

  pub data AttributeValues : Type 0 where
    no_values : AttributeValues
    value : AttributeValue → AttributeValues → AttributeValues

  pub data AttributeMap : Type 0 where
    no_attributes : AttributeMap
    attribute : Text → AttributeValue → AttributeMap → AttributeMap

-- The values of type `any` that are made for JSON or read from it. `string_slice` is a `[]string`,
-- which may be nil, `array` an `[]any`; `other` is a number or nil.
mutual
  pub data Json : Type 0 where
    string : Text → Json
    boolean : Bool → Json
    string_slice : Option (List Text) → Json
    array : Jsons → Json
    object : JsonMap → Json
    other : Json

  pub data Jsons : Type 0 where
    no_items : Jsons
    item : Json → Jsons → Jsons

  pub data JsonMap : Type 0 where
    no_members : JsonMap
    member : Text → Json → JsonMap → JsonMap

pub record Cursor : Type 0 where
  pub last_evaluated_key : JsonMap
  pub index_name : Text
  pub sort_direction : Text

-- What the file calls of encoding/base64 (StdEncoding, URLEncoding) and encoding/json. `blank` is the
-- empty text.
pub record Codec (Data Encoded : Type 0) : Type 0 where
  pub std_encode : Bytes → Text
  pub std_decode : Text → Option Bytes
  pub url_encode : Data → Encoded
  pub url_decode : Encoded → Option Data
  pub marshal : Cursor → Option Data
  pub unmarshal : Data → Option Cursor
  pub blank : Encoded
  pub is_blank : Encoded → Bool

-- An object with one member.
abbrev pub tagged : Text → Json → Json
tagged tag v = object (member tag v no_members)

-- Both results, if there are both.
abbrev pub both_with {ℓ κ ι} :
    {A : Type ℓ} {B : Type κ} {C : Type ι} → (A → B → C) → Option A → Option B → Option C
both_with f none y = none
both_with f (some x) none = none
both_with f (some x) (some y) = some (f x y)

strings_of : Jsons → Option (List Text)
strings_of no_items = some []
strings_of (item (string t) js) = Option.map (◌∷◌ t) (strings_of js)
strings_of (item _ js) = none

text_member : (Text → AttributeValue) → Json → Option AttributeValue
text_member f (string t) = some (f t)
text_member f _ = none

-- `jsonBoolToAttributeValue`
bool_member : Json → Option AttributeValue
bool_member (boolean t) = some (bool t)
bool_member _ = none

-- `jsonStringSetToAttributeValue` and `jsonNumberSetToAttributeValue`
texts_member : (Option (List Text) → AttributeValue) → Json → Option AttributeValue
unfolding strings_of
texts_member f (array js) = Option.map (λ ts. f (some ts)) (strings_of js)
texts_member f _ = none

module _ {Data Encoded : Type 0} (k : Codec Data Encoded) where
  unfoldable mutual
    -- `attributeValueToJSON`
    pub to_json : AttributeValue → Option Json
    to_json (s t) = some (tagged (codes "S") (string t))
    to_json (n t) = some (tagged (codes "N") (string t))
    to_json (b t) = some (tagged (codes "B") (string (k.std_encode t)))
    to_json (bool t) = some (tagged (codes "BOOL") (boolean t))
    to_json (null t) = some (tagged (codes "NULL") (boolean true))
    to_json (l vs) = Option.map (λ js. tagged (codes "L") (array js)) (list_to_json vs)
    to_json (m vs) = Option.map (λ js. tagged (codes "M") (object js)) (map_to_json vs)
    to_json (ss ts) = some (tagged (codes "SS") (string_slice ts))
    to_json (ns ts) = some (tagged (codes "NS") (string_slice ts))
    to_json (bs ts) = some (tagged (codes "BS") (string_slice (some (map k.std_encode ts))))
    to_json unknown = none

    -- `attributeValueListToJSON`
    pub list_to_json : AttributeValues → Option Jsons
    list_to_json no_values = some no_items
    list_to_json (value v vs) = both_with item (to_json v) (list_to_json vs)

    -- `attributeValueMapToJSON`, and the loop of `EncodeCursor`.
    pub map_to_json : AttributeMap → Option JsonMap
    map_to_json no_attributes = some no_members
    map_to_json (attribute name v vs) = both_with (member name) (to_json v) (map_to_json vs)

  -- `jsonBinaryToAttributeValue`
  binary_member : Json → Option AttributeValue
  binary_member (string t) = Option.map b (k.std_decode t)
  binary_member _ = none

  decode_all : Jsons → Option (List Bytes)
  decode_all no_items = some []
  decode_all (item (string t) js) = both_with ◌∷◌ (k.std_decode t) (decode_all js)
  decode_all (item _ js) = none

  -- `jsonBinarySetToAttributeValue`
  binaries_member : Json → Option AttributeValue
  unfolding decode_all
  binaries_member (array js) = Option.map bs (decode_all js)
  binaries_member _ = none

  -- The switch of `jsonToAttributeValue` on a tag, given the results for a list and for a map.
  by_tag : Text → Json → Option AttributeValue → Option AttributeValue → Option AttributeValue
  unfolding text_member binary_member bool_member texts_member binaries_member
  by_tag tag v as_list as_map =
      if text_eq tag (codes "S")
      then text_member s v
      else if text_eq tag (codes "N")
      then text_member n v
      else if text_eq tag (codes "B")
      then binary_member v
      else if text_eq tag (codes "BOOL")
      then bool_member v
      else if text_eq tag (codes "NULL")
      then some (null true)
      else if text_eq tag (codes "L")
      then as_list
      else if text_eq tag (codes "M")
      then as_map
      else if text_eq tag (codes "SS")
      then texts_member ss v
      else if text_eq tag (codes "NS")
      then texts_member ns v
      else if text_eq tag (codes "BS")
      then binaries_member v
      else none

  unfoldable mutual
    unfolding by_tag

    -- `jsonToAttributeValue`
    pub from_json : Json → Option AttributeValue
    from_json (object (member tag v no_members)) = by_tag tag v (list_member v) (map_member v)
    from_json _ = none

    -- `jsonListToAttributeValue`
    pub list_member : Json → Option AttributeValue
    list_member (array js) = Option.map l (list_from_json js)
    list_member _ = none

    -- `jsonMapToAttributeValue`
    pub map_member : Json → Option AttributeValue
    map_member (object js) = Option.map m (map_from_json js)
    map_member _ = none

    pub list_from_json : Jsons → Option AttributeValues
    list_from_json no_items = some no_values
    list_from_json (item v js) = both_with value (from_json v) (list_from_json js)

    -- The loop of `jsonMapToAttributeValue` and of `ToAttributeValues`.
    pub map_from_json : JsonMap → Option AttributeMap
    map_from_json no_members = some no_attributes
    map_from_json (member name v js) = both_with (attribute name) (from_json v) (map_from_json js)

  cursor_of : Text → Text → JsonMap → Cursor
  cursor_of index_name sort_direction key = record {
    last_evaluated_key = key;
    index_name = index_name;
    sort_direction = sort_direction;
  }

  encode_key : Text → Text → Option JsonMap → Option Encoded
  unfolding cursor_of
  encode_key index_name sort_direction none = none
  encode_key index_name sort_direction (some key) =
      Option.map k.url_encode (k.marshal (cursor_of index_name sort_direction key))

  -- `EncodeCursor`
  unfoldable pub encode_cursor : AttributeMap → Text → Text → Option Encoded
  unfolding encode_key
  encode_cursor no_attributes index_name sort_direction = some k.blank
  encode_cursor (attribute name v key) index_name sort_direction =
      encode_key index_name sort_direction (map_to_json (attribute name v key))

  decode_data : Option Data → Option Cursor
  decode_data none = none
  decode_data (some d) = k.unmarshal d

  -- `DecodeCursor`; the inner `none` is its nil for the empty text.
  unfoldable pub decode_cursor : Encoded → Option (Option Cursor)
  unfolding decode_data
  decode_cursor encoded =
      if k.is_blank encoded then some none else Option.map some (decode_data (k.url_decode encoded))

  -- `ToAttributeValues`; nil is the map without entries.
  unfoldable pub to_attribute_values : Option Cursor → Option AttributeMap
  to_attribute_values none = some no_attributes
  to_attribute_values (some cursor) = map_from_json cursor.last_evaluated_key
