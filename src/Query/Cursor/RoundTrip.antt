-- ===== src/Query/Cursor/RoundTrip.antt =====
-- pkg/query/cursor.go: a key comes back from its cursor, given that the codecs it uses round-trip.
use mathlib.Core.Option
use dynamorm.Base.{
  ◌≡◌, refl, ap, ◌∙◌, Bool, true, false, ◌&&◌, Option, none, some, List, [], ◌∷◌, map, &&_true,
}
use dynamorm.Base.Text.{Text, text_eq}
use dynamorm.Query.Cursor.{
  Bytes, AttributeValue, s, n, b, bool, null, l, m, ss, ns, bs, unknown, AttributeValues, no_values,
  value, AttributeMap, no_attributes, attribute, Json, string, boolean, string_slice, array, object,
  other, Jsons, no_items, item, JsonMap, no_members, member, Cursor, Codec, both_with, strings_of,
  texts_member, text_member, bool_member, binary_member, decode_all, binaries_member, by_tag,
  to_json, list_to_json, map_to_json, from_json, list_member, map_member, list_from_json,
  map_from_json, cursor_of, encode_key, encode_cursor, decode_data, decode_cursor,
  to_attribute_values,
}

abbrev pub string_items : List Text → Jsons
string_items [] = no_items
string_items (t ∷ ts) = item (string t) (string_items ts)

-- A value behind `json.Marshal` and `json.Unmarshal` into `any`: a list of texts becomes one of `any`,
-- and a nil one, which is written as null, becomes nil.
unfoldable mutual
  pub reread : Json → Json
  reread (string t) = string t
  reread (boolean t) = boolean t
  reread (string_slice (some ts)) = array (string_items ts)
  reread (string_slice none) = other
  reread (array js) = array (reread_items js)
  reread (object js) = object (reread_members js)
  reread other = other

  pub reread_items : Jsons → Jsons
  reread_items no_items = no_items
  reread_items (item v js) = item (reread v) (reread_items js)

  pub reread_members : JsonMap → JsonMap
  reread_members no_members = no_members
  reread_members (member name v js) = member name (reread v) (reread_members js)

abbrev pub reread_cursor : Cursor → Cursor
reread_cursor c = record c { last_evaluated_key = reread_members c.last_evaluated_key }

-- What the codecs promise. The encoding of a cursor is never empty.
pub record IsCodec {Data Encoded : Type 0} (k : Codec Data Encoded) : Type 0 where
  pub std : (t : Bytes) → k.std_decode (k.std_encode t) ≡ some t
  pub json :
      (c : Cursor)
      → (d : Data) × (k.marshal c ≡ some d)
        × (k.unmarshal d ≡ some (reread_cursor c))
        × (k.is_blank (k.url_encode d) ≡ false)
  pub url : (d : Data) → k.url_decode (k.url_encode d) ≡ some d
  pub blank_is : k.is_blank k.blank ≡ true

-- Whether all the values in a value are of a known member, and no set of texts is a nil slice.
unfoldable mutual
  pub is_known : AttributeValue → Bool
  is_known (l vs) = all_known vs
  is_known (m vs) = map_known vs
  is_known unknown = false
  is_known (ss none) = false
  is_known (ns none) = false
  is_known _ = true

  pub all_known : AttributeValues → Bool
  all_known no_values = true
  all_known (value v vs) = is_known v && all_known vs

  pub map_known : AttributeMap → Bool
  map_known no_attributes = true
  map_known (attribute name v vs) = is_known v && map_known vs

-- A value in which every NULL is true.
unfoldable mutual
  pub settled : AttributeValue → AttributeValue
  settled (null t) = null true
  settled (l vs) = l (all_settled vs)
  settled (m vs) = m (map_settled vs)
  settled v = v

  pub all_settled : AttributeValues → AttributeValues
  all_settled no_values = no_values
  all_settled (value v vs) = value (settled v) (all_settled vs)

  pub map_settled : AttributeMap → AttributeMap
  map_settled no_attributes = no_attributes
  map_settled (attribute name v vs) = attribute name (settled v) (map_settled vs)

strings_of-string_items : (ts : List Text) → strings_of (string_items ts) ≡ some ts
unfolding strings_of
strings_of-string_items [] = refl
strings_of-string_items (t ∷ ts) = rw (strings_of-string_items ts) refl

-- What is written as JSON and, behind the JSON library, read as the result.
record Reads {V J : Type 0} (write : Option J) (pass : J → J) (read : J → Option V) (result : V)
    : Type 0 where
  json : J
  written : write ≡ some json
  back : read (pass json) ≡ some result

module _ {V J W K : Type 0} where
  map-Reads :
      {write : Option J} {pass : J → J} {read : J → Option V} {result : V} (f : J → K) (g : V → W)
      (pass' : K → K) (read' : K → Option W)
      → ((j : J) → read' (pass' (f j)) ≡ Option.map g (read (pass j)))
      → Reads write pass read result
      → Reads (Option.map f write) pass' read' (g result)
  map-Reads f g pass' read' h r = record {
    json = f r.json;
    written = ap (Option.map f) r.written;
    back = h r.json ∙ ap (Option.map g) r.back;
  }

module _ {V J W K X L : Type 0} where
  both-Reads :
      {write : Option J} {pass : J → J} {read : J → Option V} {result : V} {write' : Option K}
      {pass' : K → K} {read' : K → Option W} {result' : W} (f : J → K → L) (g : V → W → X)
      (pass'' : L → L) (read'' : L → Option X)
      → ((j : J) (i : K) → read'' (pass'' (f j i)) ≡ both_with g (read (pass j)) (read' (pass' i)))
      → Reads write pass read result
      → Reads write' pass' read' result'
      → Reads (both_with f write write') pass'' read'' (g result result')
  both-Reads f g pass'' read'' h r q = record {
    json = f r.json q.json;
    written = rw (r.written, q.written) refl;
    back = h r.json q.json ∙ rw (r.back, q.back) refl;
  }

module _ {Data Encoded : Type 0} (k : Codec Data Encoded) (w : IsCodec k) where
  decode_all-map : (ts : List Bytes) → decode_all k (string_items (map k.std_encode ts)) ≡ some ts
  unfolding decode_all
  decode_all-map [] = refl
  decode_all-map (t ∷ ts) = rw (w.std t, decode_all-map ts) refl

  mutual
    unfolding to_json list_to_json map_to_json from_json list_member map_member list_from_json
        map_from_json reread reread_items reread_members is_known all_known map_known settled
        all_settled map_settled by_tag text_member bool_member binary_member texts_member
        binaries_member text_eq

    value_back :
        (v : AttributeValue)
        → is_known v ≡ true
        → Reads (to_json k v) reread (from_json k) (settled v)
    value_back (s t) h = record { json = _; written = refl; back = refl }
    value_back (n t) h = record { json = _; written = refl; back = refl }
    value_back (b t) h = record { json = _; written = refl; back = rw (w.std t) refl }
    value_back (bool t) h = record { json = _; written = refl; back = refl }
    value_back (null t) h = record { json = _; written = refl; back = refl }
    value_back (l vs) h = map-Reads _ l reread (from_json k) (λ j. refl) (values_back vs h)
    value_back (m vs) h = map-Reads _ m reread (from_json k) (λ j. refl) (map_back vs h)
    value_back (ss none) h = cc
    value_back (ss (some ts)) h = record {
      json = _;
      written = refl;
      back = rw (strings_of-string_items ts) refl;
    }
    value_back (ns none) h = cc
    value_back (ns (some ts)) h = record {
      json = _;
      written = refl;
      back = rw (strings_of-string_items ts) refl;
    }
    value_back (bs ts) h = record { json = _; written = refl; back = rw (decode_all-map ts) refl }
    value_back unknown h = cc

    values_back :
        (vs : AttributeValues)
        → all_known vs ≡ true
        → Reads (list_to_json k vs) reread_items (list_from_json k) (all_settled vs)
    values_back no_values h = record { json = _; written = refl; back = refl }
    values_back (value v vs) h =
        let a = &&_true _ _ h in
        both-Reads item value reread_items (list_from_json k) (λ j i. refl) (value_back v a.0)
          (values_back vs a.1)

    map_back :
        (vs : AttributeMap)
        → map_known vs ≡ true
        → Reads (map_to_json k vs) reread_members (map_from_json k) (map_settled vs)
    map_back no_attributes h = record { json = _; written = refl; back = refl }
    map_back (attribute name v vs) h =
        let a = &&_true _ _ h in
        both-Reads (member name) (attribute name) reread_members (map_from_json k) (λ j i. refl)
          (value_back v a.0) (map_back vs a.1)

  -- A cursor that is made, read and turned into a key again.
  pub record IsRoundTrip (key : AttributeMap) (index_name sort_direction : Text) : Type 0 where
    pub encoded : Encoded
    pub encodes : encode_cursor k key index_name sort_direction ≡ some encoded
    pub decoded : Option Cursor
    pub decodes : decode_cursor k encoded ≡ some decoded
    pub key_is : to_attribute_values k decoded ≡ some (map_settled key)
    pub labels :
        (c : Cursor)
        → decoded ≡ some c
        → (c.index_name ≡ index_name) × (c.sort_direction ≡ sort_direction)

  encoded_back :
      (name : Text) (v : AttributeValue) (vs : AttributeMap) (index_name sort_direction : Text)
      → Reads
          (map_to_json k (attribute name v vs))
          reread_members
          (map_from_json k)
          (map_settled (attribute name v vs))
      → IsRoundTrip (attribute name v vs) index_name sort_direction
  unfolding encode_cursor encode_key decode_cursor decode_data to_attribute_values cursor_of
  encoded_back name v vs index_name sort_direction r =
      let c = cursor_of k index_name sort_direction r.json in
      let (d, made, reads, filled) = w.json c in
      record {
        encoded = k.url_encode d;
        encodes = rw (r.written, encode_key, made) refl;
        decoded = some (reread_cursor c);
        decodes = rw (filled, w.url d, decode_data, reads) refl;
        key_is = r.back;
        labels = λ c' e. (cc, cc);
      }

  -- With codecs that round-trip, where JSON turns a nil `[]string` into nil: `EncodeCursor` of a key
  -- whose values are all of known members, and whose sets of strings or numbers are not nil slices,
  -- returns no error, `DecodeCursor` reads the result, and `ToAttributeValues` gives the key back,
  -- every NULL in it true, lists, maps and sets included. A cursor that is not nil has the same index
  -- and direction.
  pub encode_cursor-IsRoundTrip :
      (key : AttributeMap) (index_name sort_direction : Text)
      → map_known key ≡ true
      → IsRoundTrip key index_name sort_direction
  unfolding encode_cursor decode_cursor to_attribute_values map_settled
  encode_cursor-IsRoundTrip no_attributes index_name sort_direction h = record {
    encoded = k.blank;
    encodes = refl;
    decoded = none;
    decodes = rw w.blank_is refl;
    key_is = refl;
    labels = λ c e. (cc, cc);
  }
  encode_cursor-IsRoundTrip (attribute name v vs) index_name sort_direction h =
      encoded_back name v vs index_name sort_direction (map_back (attribute name v vs) h)
