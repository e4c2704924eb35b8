-- ===== src/Query/Cursor/RoundTrip.antt =====
-- The last key that a page's cursor carries comes back from its text.
use table_theory.Base.{
  ℕ, some, [], ◌∷◌, ◌≤◌, Text, codes, text_eq, to_lower_char, IsNonEmpty, ok, All, ◌≡◌, refl, arith,
  List,
}
use table_theory.Encoding.Base64
use table_theory.Encoding.Base64.{url}
use table_theory.Encoding.Utf8
use table_theory.Encoding.Utf8.{IsScalar}
use table_theory.Encoding.Json.{Json, print, read, depth, max_nesting_depth, no_fields}
use table_theory.Encoding.Json.RoundTrip.{IsValid, FieldsAreValid, parse-print}
use table_theory.Encoding.Json.Scalars.{print-IsScalar}
use table_theory.Query.Cursor.{
  Cursor, cursor_json, attribute_value_map_to_json, encode_cursor, decode_cursor, store,
  store_fields, stored_as, to_attribute_values, omit_empty,
}
use table_theory.Query.Cursor.Values.{
  MembersAreStorable, to_map-to_json, last_key_values-to_json, map_to_json-IsValid,
}
use table_theory.Expr.{AttributeValue, Members, member}

-- The cursor that a page's text stands for.
abbrev cursor_of : Members → Text → Text → Cursor
cursor_of key index sort = record {
  last_evaluated_key = attribute_value_map_to_json key;
  index_name = index;
  sort_direction = sort;
}

option-IsValid :
    (index sort : Text)
    → All IsScalar index
    → All IsScalar sort
    → FieldsAreValid (omit_empty (codes "index") index (omit_empty (codes "sort") sort no_fields))
unfolding IsValid
option-IsValid [] [] hi hs = tt
option-IsValid [] (c ∷ s) hi hs = ((refl, (refl, (refl, (refl, tt)))), (hs, tt))
option-IsValid (c ∷ s) [] hi hs = ((refl, (refl, (refl, (refl, (refl, tt))))), (hi, tt))
option-IsValid (c ∷ s) (d ∷ t) hi hs = (
  (refl, (refl, (refl, (refl, (refl, tt))))),
  (hi, ((refl, (refl, (refl, (refl, tt)))), (hs, tt))),
)

cursor_json-IsValid :
    (key : Members) (index sort : Text)
    → MembersAreStorable key
    → All IsScalar index
    → All IsScalar sort
    → IsValid (cursor_json key index sort)
unfolding cursor_json IsValid
cursor_json-IsValid key index sort h hi hs = (
  (refl, (refl, (refl, (refl, (refl, (refl, (refl, tt))))))),
  (map_to_json-IsValid key h, option-IsValid index sort hi hs),
)

store-cursor_json :
    (key : Members) (index sort : Text)
    → MembersAreStorable key
    → store (some (cursor_json key index sort)) ≡ some (cursor_of key index sort)
unfolding cursor_json store_fields text_eq to_lower_char
store-cursor_json key [] [] h = rw (to_map-to_json key h) refl
store-cursor_json key [] (c ∷ s) h = rw (to_map-to_json key h) refl
store-cursor_json key (c ∷ s) [] h = rw (to_map-to_json key h) refl
store-cursor_json key (c ∷ s) (d ∷ t) h = rw (to_map-to_json key h) refl

read-print :
    (v : Json)
    → IsValid v
    → depth v ≤ max_nesting_depth
    → read (Utf8.decode (Utf8.encode (print v))) ≡ some v
unfolding read
read-print v h shallow =
    rw (Utf8.decode-encode (print v) (print-IsScalar v h), parse-print v h) (ground arith)

printed-IsNonEmpty :
    (key : Members) (index sort : Text)
    → IsNonEmpty (Base64.encode url (Utf8.encode (print (cursor_json key index sort))))
unfolding cursor_json print Utf8.encode
printed-IsNonEmpty key index sort = Base64.encode-IsNonEmpty url b'{' _

decode_cursor-bytes :
    (t : Text) (bytes : List ℕ)
    → IsNonEmpty t
    → Base64.decode url t ≡ some bytes
    → decode_cursor t ≡ stored_as (store (read (Utf8.decode bytes)))
unfolding decode_cursor
decode_cursor-bytes [] bytes h e = elim h [ ]
decode_cursor-bytes (c ∷ s) bytes h e = rw e refl

-- The text of a cursor with a key of one attribute or more decodes to a cursor with the index and
-- the direction that were given, whose attribute values are those of the key. Every string of the
-- key, the index and the direction is of Unicode scalar values, the bytes are below 256, a map is
-- given in the order of its keys, and the JSON has no more than 10000 brackets open at once.
pub decode_cursor-encode_cursor :
    (k : Text) (v : AttributeValue) (rest : Members) (index sort : Text)
    → MembersAreStorable (member k v rest)
    → All IsScalar index
    → All IsScalar sort
    → depth (cursor_json (member k v rest) index sort) ≤ max_nesting_depth
    → (c : Cursor) × (decode_cursor (encode_cursor (member k v rest) index sort) ≡ ok (some c))
      × (to_attribute_values (some c) ≡ ok (member k v rest))
      × (c.index_name ≡ index)
      × (c.sort_direction ≡ sort)
unfolding encode_cursor to_attribute_values
decode_cursor-encode_cursor k v rest index sort h hi hs shallow =
    let key = member k v rest in
    let json = cursor_json key index sort in
    let valid = cursor_json-IsValid key index sort h hi hs in
    let bytes = Utf8.encode (print json) in
    let decodes =
      decode_cursor-bytes (Base64.encode url bytes) bytes (printed-IsNonEmpty key index sort) (
        Base64.decode-encode url bytes
          (Utf8.encode-IsByte (print json) (print-IsScalar json valid))) in
    (
      cursor_of key index sort,
      rw (decodes, read-print json valid shallow, store-cursor_json key index sort h) refl,
      last_key_values-to_json key h,
      refl,
      refl,
    )
