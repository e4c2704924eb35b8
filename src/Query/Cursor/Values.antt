-- ===== src/Query/Cursor/Values.antt =====
-- Attribute values as JSON and back: what holds of the values that a table can have stored.
use table_theory.Base.{ℕ, true, List, [], ◌∷◌, Text, codes, ok, All, ◌≡◌, refl}
use table_theory.Encoding.Base64.{std, IsByte, encode, decode-encode, encode-IsAscii}
use table_theory.Encoding.Utf8.{IsScalar, IsAscii-IsScalar}
use table_theory.Encoding.Json.{Json, Fields, field, add_field, text_lt, to_any, to_map, to_slice}
use table_theory.Encoding.Json.RoundTrip.{IsValid, ItemsAreValid, FieldsAreValid}
use table_theory.Query.Cursor.{
  strings, encoded_strings, attribute_value_to_json, attribute_value_list_to_json,
  attribute_value_map_to_json, string_items, binary_items, json_to_attribute_value,
  json_items_to_attribute_values, json_fields_to_attribute_values, last_key_values,
}
use table_theory.Expr.{
  AttributeValue, Attributes, Members, string_attr, number_attr, binary_attr, bool_attr, null_attr,
  list_attr, map_attr, string_set, number_set, binary_set, no_more, also, closed, member,
}

-- The first key of a map stands after `k`.
abbrev IsAfter : Text → Members → Type 0
IsAfter k closed = Unit
IsAfter k (member j w ms) = text_lt k j ≡ true

-- The values that Go can hold: strings of Unicode scalar values, bytes, and maps given by their
-- entries in the order of their keys.
unfoldable mutual
  pub IsStorable : AttributeValue → Type 0
  IsStorable (string_attr s) = All IsScalar s
  IsStorable (number_attr s) = All IsScalar s
  IsStorable (binary_attr b) = All IsByte b
  IsStorable (bool_attr b) = Unit
  IsStorable null_attr = Unit
  IsStorable (list_attr xs) = AttributesAreStorable xs
  IsStorable (map_attr ms) = MembersAreStorable ms
  IsStorable (string_set ss) = All (All IsScalar) ss
  IsStorable (number_set ss) = All (All IsScalar) ss
  IsStorable (binary_set bs) = All (All IsByte) bs

  pub AttributesAreStorable : Attributes → Type 0
  AttributesAreStorable no_more = Unit
  AttributesAreStorable (also v xs) = IsStorable v × AttributesAreStorable xs

  pub MembersAreStorable : Members → Type 0
  MembersAreStorable closed = Unit
  MembersAreStorable (member k v ms) =
      All IsScalar k × (IsAfter k ms × (IsStorable v × MembersAreStorable ms))

add_field-first :
    (k j : Text) (v w : Json) (fs : Fields)
    → text_lt k j ≡ true
    → add_field k v (field j w fs) ≡ field k v (field j w fs)
unfolding add_field
add_field-first k j v w fs h = rw h refl

-- The entries keep their order.
map_to_json-member :
    (k : Text) (v : AttributeValue) (ms : Members)
    → IsAfter k ms
    → MembersAreStorable ms
    → attribute_value_map_to_json (member k v ms)
      ≡ field k (attribute_value_to_json v) (attribute_value_map_to_json ms)
unfolding attribute_value_to_json MembersAreStorable add_field
map_to_json-member k v closed after h = refl
map_to_json-member k v (member j w ms) after h =
    let here =
      add_field-first k j (attribute_value_to_json v) (attribute_value_to_json w)
        (attribute_value_map_to_json ms) after in
    rw (map_to_json-member j w ms h.1.0 h.1.1.1) here

string_items-strings : (tag : Text) (ss : List Text) → string_items tag (strings ss) ≡ ok ss
unfolding string_items
string_items-strings tag [] = refl
string_items-strings tag (s ∷ ss) = rw (string_items-strings tag ss) refl

binary_items-encoded :
    (bs : List (List ℕ)) → All (All IsByte) bs → binary_items (encoded_strings bs) ≡ ok bs
unfolding binary_items
binary_items-encoded [] h = refl
binary_items-encoded (b ∷ bs) h = rw (decode-encode std b h.0, binary_items-encoded bs h.1) refl

mutual
  unfolding json_to_attribute_value attribute_value_to_json IsStorable

  json_to_attribute_value-to_json :
      (v : AttributeValue)
      → IsStorable v
      → json_to_attribute_value (attribute_value_to_json v) ≡ ok v
  json_to_attribute_value-to_json (string_attr s) h = refl
  json_to_attribute_value-to_json (number_attr s) h = refl
  json_to_attribute_value-to_json (binary_attr b) h = rw (decode-encode std b h) refl
  json_to_attribute_value-to_json (bool_attr b) h = refl
  json_to_attribute_value-to_json null_attr h = refl
  json_to_attribute_value-to_json (list_attr xs) h = rw (items-to_json xs h) refl
  json_to_attribute_value-to_json (map_attr ms) h = rw (fields-to_json ms h) refl
  json_to_attribute_value-to_json (string_set ss) h = rw (string_items-strings (codes "SS") ss) refl
  json_to_attribute_value-to_json (number_set ss) h = rw (string_items-strings (codes "NS") ss) refl
  json_to_attribute_value-to_json (binary_set bs) h = rw (binary_items-encoded bs h) refl

  items-to_json :
      (xs : Attributes)
      → AttributesAreStorable xs
      → json_items_to_attribute_values (attribute_value_list_to_json xs) ≡ ok xs
  items-to_json no_more h = refl
  items-to_json (also v xs) h =
      rw (json_to_attribute_value-to_json v h.0, items-to_json xs h.1) refl

  fields-to_json :
      (ms : Members)
      → MembersAreStorable ms
      → json_fields_to_attribute_values (attribute_value_map_to_json ms) ≡ ok ms
  fields-to_json closed h = refl
  fields-to_json (member k v ms) h =
      rw
        (
          map_to_json-member k v ms h.1.0 h.1.1.1,
          json_to_attribute_value-to_json v h.1.1.0,
          fields-to_json ms h.1.1.1,
        )
        refl

-- The same of the whole key, whose errors name the attribute.
pub last_key_values-to_json :
    (ms : Members)
    → MembersAreStorable ms
    → last_key_values (attribute_value_map_to_json ms) ≡ ok ms
unfolding last_key_values attribute_value_to_json MembersAreStorable
last_key_values-to_json closed h = refl
last_key_values-to_json (member k v ms) h =
    rw
      (
        map_to_json-member k v ms h.1.0 h.1.1.1,
        json_to_attribute_value-to_json v h.1.1.0,
        last_key_values-to_json ms h.1.1.1,
      )
      refl

to_slice-strings : (ss : List Text) → to_slice (strings ss) ≡ strings ss
unfolding to_any
to_slice-strings [] = refl
to_slice-strings (s ∷ ss) = rw (to_slice-strings ss) refl

to_slice-encoded : (bs : List (List ℕ)) → to_slice (encoded_strings bs) ≡ encoded_strings bs
unfolding to_any
to_slice-encoded [] = refl
to_slice-encoded (b ∷ bs) = rw (to_slice-encoded bs) refl

-- Stored into `any`, the tree of a value is itself.
mutual
  unfolding to_any attribute_value_to_json IsStorable add_field

  to_any-to_json :
      (v : AttributeValue)
      → IsStorable v
      → to_any (attribute_value_to_json v) ≡ attribute_value_to_json v
  to_any-to_json (string_attr s) h = refl
  to_any-to_json (number_attr s) h = refl
  to_any-to_json (binary_attr b) h = refl
  to_any-to_json (bool_attr b) h = refl
  to_any-to_json null_attr h = refl
  to_any-to_json (list_attr xs) h = rw (to_slice-to_json xs h) refl
  to_any-to_json (map_attr ms) h = rw (to_map-to_json ms h) refl
  to_any-to_json (string_set ss) h = rw (to_slice-strings ss) refl
  to_any-to_json (number_set ss) h = rw (to_slice-strings ss) refl
  to_any-to_json (binary_set bs) h = rw (to_slice-encoded bs) refl

  to_slice-to_json :
      (xs : Attributes)
      → AttributesAreStorable xs
      → to_slice (attribute_value_list_to_json xs) ≡ attribute_value_list_to_json xs
  to_slice-to_json no_more h = refl
  to_slice-to_json (also v xs) h = rw (to_any-to_json v h.0, to_slice-to_json xs h.1) refl

  pub to_map-to_json :
      (ms : Members)
      → MembersAreStorable ms
      → to_map (attribute_value_map_to_json ms) ≡ attribute_value_map_to_json ms
  to_map-to_json closed h = refl
  to_map-to_json (member k v ms) h =
      rw
        (
          map_to_json-member k v ms h.1.0 h.1.1.1,
          to_any-to_json v h.1.1.0,
          to_map-to_json ms h.1.1.1,
        )
        (map_to_json-member k v ms h.1.0 h.1.1.1)

strings-ItemsAreValid : (ss : List Text) → All (All IsScalar) ss → ItemsAreValid (strings ss)
unfolding IsValid
strings-ItemsAreValid [] h = tt
strings-ItemsAreValid (s ∷ ss) h = (h.0, strings-ItemsAreValid ss h.1)

base64-IsScalar : (bs : List ℕ) → All IsScalar (encode std bs)
base64-IsScalar bs = IsAscii-IsScalar (encode std bs) (encode-IsAscii std bs)

encoded_strings-ItemsAreValid : (bs : List (List ℕ)) → ItemsAreValid (encoded_strings bs)
unfolding IsValid
encoded_strings-ItemsAreValid [] = tt
encoded_strings-ItemsAreValid (b ∷ bs) = (base64-IsScalar b, encoded_strings-ItemsAreValid bs)

mutual
  unfolding IsValid attribute_value_to_json IsStorable

  to_json-IsValid : (v : AttributeValue) → IsStorable v → IsValid (attribute_value_to_json v)
  to_json-IsValid (string_attr s) h = ((refl, tt), (h, tt))
  to_json-IsValid (number_attr s) h = ((refl, tt), (h, tt))
  to_json-IsValid (binary_attr b) h = ((refl, tt), (base64-IsScalar b, tt))
  to_json-IsValid (bool_attr b) h = ((refl, (refl, (refl, (refl, tt)))), (tt, tt))
  to_json-IsValid null_attr h = ((refl, (refl, (refl, (refl, tt)))), (tt, tt))
  to_json-IsValid (list_attr xs) h = ((refl, tt), (list_to_json-IsValid xs h, tt))
  to_json-IsValid (map_attr ms) h = ((refl, tt), (map_to_json-IsValid ms h, tt))
  to_json-IsValid (string_set ss) h = ((refl, (refl, tt)), (strings-ItemsAreValid ss h, tt))
  to_json-IsValid (number_set ss) h = ((refl, (refl, tt)), (strings-ItemsAreValid ss h, tt))
  to_json-IsValid (binary_set bs) h = ((refl, (refl, tt)), (encoded_strings-ItemsAreValid bs, tt))

  list_to_json-IsValid :
      (xs : Attributes) → AttributesAreStorable xs → ItemsAreValid (attribute_value_list_to_json xs)
  list_to_json-IsValid no_more h = tt
  list_to_json-IsValid (also v xs) h = (to_json-IsValid v h.0, list_to_json-IsValid xs h.1)

  pub map_to_json-IsValid :
      (ms : Members) → MembersAreStorable ms → FieldsAreValid (attribute_value_map_to_json ms)
  map_to_json-IsValid closed h = tt
  map_to_json-IsValid (member k v ms) h =
      rw (map_to_json-member k v ms h.1.0 h.1.1.1)
        (h.0, (to_json-IsValid v h.1.1.0, map_to_json-IsValid ms h.1.1.1))
