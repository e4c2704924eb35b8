-- ===== src/Query/Cursor.antt =====
-- pkg/query/cursor.go: a page's last key as an opaque text, and back. The types of the SDK are the ten
-- that are listed, so the errors for another type do not arise. A Go map is its entries in the order
-- of their keys, the order in which the error of the first bad entry is taken here.
pub mod Values
pub mod RoundTrip
use table_theory.Base.{
  ℕ, Bool, true, Option, none, some, List, [], ◌∷◌, Text, codes, text_eq, Result, ok, err, ◌>>=◌,
  map_err, if◌then◌else◌, map, ◌==◌, to_lower_char,
}
use table_theory.Encoding.Base64
use table_theory.Encoding.Base64.{std, url}
use table_theory.Encoding.Utf8
use table_theory.Encoding.Json.{
  Json, Items, Fields, null, bool, number, string, array, object, no_items, item, no_fields, field,
  add_field, to_map, print, read,
}
use table_theory.Expr.{
  AttributeValue, Attributes, Members, string_attr, number_attr, binary_attr, bool_attr, null_attr,
  list_attr, map_attr, string_set, number_set, binary_set, no_more, also, closed, member,
}

pub data Error : Type 0 where
  not_a_map invalid_format unknown_format not_base64 not_json : Error
  wrong_type : Text → Error
  wrong_item : Text → Error
  in_attribute : Text → Error → Error

-- struct Cursor; a nil map is one with no entry.
pub record Cursor : Type 0 where
  pub last_evaluated_key : Fields
  pub index_name : Text
  pub sort_direction : Text

-- map[string]any{k: v}
abbrev pub entry : Text → Json → Json
entry k v = object (field k v no_fields)

abbrev pub strings : List Text → Items
strings [] = no_items
strings (s ∷ ss) = item (string s) (strings ss)

abbrev pub encoded_strings : List (List ℕ) → Items
encoded_strings [] = no_items
encoded_strings (b ∷ bs) = item (string (Base64.encode std b)) (encoded_strings bs)

-- attributeValueToJSON, and its parts for the lists and maps
unfoldable mutual
  unfolding add_field

  pub attribute_value_to_json : AttributeValue → Json
  attribute_value_to_json (string_attr s) = entry (codes "S") (string s)
  attribute_value_to_json (number_attr s) = entry (codes "N") (string s)
  attribute_value_to_json (binary_attr b) = entry (codes "B") (string (Base64.encode std b))
  attribute_value_to_json (bool_attr b) = entry (codes "BOOL") (bool b)
  attribute_value_to_json null_attr = entry (codes "NULL") (bool true)
  attribute_value_to_json (list_attr xs) =
      entry (codes "L") (array (attribute_value_list_to_json xs))
  attribute_value_to_json (map_attr ms) =
      entry (codes "M") (object (attribute_value_map_to_json ms))
  attribute_value_to_json (string_set ss) = entry (codes "SS") (array (strings ss))
  attribute_value_to_json (number_set ss) = entry (codes "NS") (array (strings ss))
  attribute_value_to_json (binary_set bs) = entry (codes "BS") (array (encoded_strings bs))

  pub attribute_value_list_to_json : Attributes → Items
  attribute_value_list_to_json no_more = no_items
  attribute_value_list_to_json (also v xs) =
      item (attribute_value_to_json v) (attribute_value_list_to_json xs)

  pub attribute_value_map_to_json : Members → Fields
  attribute_value_map_to_json closed = no_fields
  attribute_value_map_to_json (member k v ms) =
      add_field k (attribute_value_to_json v) (attribute_value_map_to_json ms)

abbrev omit_empty : Text → Text → Fields → Fields
omit_empty name [] fs = fs
omit_empty name (c ∷ s) fs = field name (string (c ∷ s)) fs

-- The fields of the struct, in its order.
unfoldable pub cursor_json : Members → Text → Text → Json
unfolding attribute_value_to_json
cursor_json key index sort = object (
    field (codes "lastKey") (object (attribute_value_map_to_json key))
      (omit_empty (codes "index") index (omit_empty (codes "sort") sort no_fields)))

unfoldable pub encode_cursor : Members → Text → Text → Text
unfolding cursor_json print Utf8.encode Base64.encode
encode_cursor closed index sort = []
encode_cursor (member k v ms) index sort =
    Base64.encode url (Utf8.encode (print (cursor_json (member k v ms) index sort)))

-- jsonStringToAttributeValue and jsonNumberToAttributeValue
abbrev string_of : Text → Json → Result Error Text
string_of tag (string s) = ok s
string_of tag _ = err (wrong_type tag)

abbrev pub decoded : Option (List ℕ) → Result Error (List ℕ)
decoded (some bs) = ok bs
decoded none = err not_base64

-- jsonBinaryToAttributeValue
abbrev json_binary_to_attribute_value : Json → Result Error AttributeValue
json_binary_to_attribute_value v = do
  s ← string_of (codes "B") v
  bs ← decoded (Base64.decode std s)
  ok (binary_attr bs)

-- jsonBoolToAttributeValue
abbrev json_bool_to_attribute_value : Json → Result Error AttributeValue
json_bool_to_attribute_value (bool b) = ok (bool_attr b)
json_bool_to_attribute_value _ = err (wrong_type (codes "BOOL"))

abbrev items_of : Text → Json → Result Error Items
items_of tag (array xs) = ok xs
items_of tag _ = err (wrong_type tag)

abbrev item_string : Text → Json → Result Error Text
item_string tag (string s) = ok s
item_string tag _ = err (wrong_item tag)

-- jsonStringSetToAttributeValue and jsonNumberSetToAttributeValue: their loop
unfoldable pub string_items : Text → Items → Result Error (List Text)
string_items tag no_items = ok []
string_items tag (item v xs) = do s ← item_string tag v; ss ← string_items tag xs; ok (s ∷ ss)

-- jsonBinarySetToAttributeValue: its loop
unfoldable pub binary_items : Items → Result Error (List (List ℕ))
binary_items no_items = ok []
binary_items (item v xs) = do
  s ← item_string (codes "BS") v
  b ← decoded (Base64.decode std s)
  bs ← binary_items xs
  ok (b ∷ bs)

-- The cases of jsonToAttributeValue's switch, with the two that recur passed in.
abbrev by_key :
    Text
    → Json
    → Result Error AttributeValue
    → Result Error AttributeValue
    → Result Error AttributeValue
by_key key val list members =
    if text_eq key (codes "S")
    then (do s ← string_of key val; ok (string_attr s))
    else if text_eq key (codes "N")
    then (do s ← string_of key val; ok (number_attr s))
    else if text_eq key (codes "B")
    then json_binary_to_attribute_value val
    else if text_eq key (codes "BOOL")
    then json_bool_to_attribute_value val
    else if text_eq key (codes "NULL")
    then ok null_attr
    else if text_eq key (codes "L")
    then list
    else if text_eq key (codes "M")
    then members
    else if text_eq key (codes "SS")
    then (do xs ← items_of key val; ss ← string_items key xs; ok (string_set ss))
    else if text_eq key (codes "NS")
    then (do xs ← items_of key val; ss ← string_items key xs; ok (number_set ss))
    else if text_eq key (codes "BS")
    then (do xs ← items_of key val; bs ← binary_items xs; ok (binary_set bs))
    else err unknown_format

unfoldable mutual
  unfolding text_eq string_items binary_items Base64.decode

  pub json_to_attribute_value : Json → Result Error AttributeValue
  json_to_attribute_value (object no_fields) = err invalid_format
  json_to_attribute_value (object (field key val no_fields)) =
      let list = json_list_to_attribute_value val in
      let members = json_map_to_attribute_value val in by_key key val list members
  json_to_attribute_value (object (field key val (field k v fs))) = err invalid_format
  json_to_attribute_value _ = err not_a_map

  pub json_list_to_attribute_value : Json → Result Error AttributeValue
  json_list_to_attribute_value (array xs) = do
    vs ← json_items_to_attribute_values xs
    ok (list_attr vs)
  json_list_to_attribute_value _ = err (wrong_type (codes "L"))

  pub json_items_to_attribute_values : Items → Result Error Attributes
  json_items_to_attribute_values no_items = ok no_more
  json_items_to_attribute_values (item v xs) = do
    av ← json_to_attribute_value v
    vs ← json_items_to_attribute_values xs
    ok (also av vs)

  pub json_map_to_attribute_value : Json → Result Error AttributeValue
  json_map_to_attribute_value (object fs) = do
    ms ← json_fields_to_attribute_values fs
    ok (map_attr ms)
  json_map_to_attribute_value _ = err (wrong_type (codes "M"))

  pub json_fields_to_attribute_values : Fields → Result Error Members
  json_fields_to_attribute_values no_fields = ok closed
  json_fields_to_attribute_values (field k v fs) = do
    av ← json_to_attribute_value v
    ms ← json_fields_to_attribute_values fs
    ok (member k av ms)

-- The loop of Cursor.ToAttributeValues
unfoldable pub last_key_values : Fields → Result Error Members
unfolding json_to_attribute_value
last_key_values no_fields = ok closed
last_key_values (field k v fs) = do
  av ← map_err (in_attribute k) (json_to_attribute_value v)
  ms ← last_key_values fs
  ok (member k av ms)

-- Cursor.ToAttributeValues; a nil map is one with no entry.
unfoldable pub to_attribute_values : Option Cursor → Result Error Members
unfolding last_key_values
to_attribute_values none = ok closed
to_attribute_values (some c) = last_key_values c.last_evaluated_key

abbrev zero_cursor : Cursor
zero_cursor = record { last_evaluated_key = no_fields; index_name = []; sort_direction = [] }

-- Unmarshal finds the field of a name without regard to case; two letters have a third form.
abbrev fold_char : ℕ → ℕ
fold_char c = if c == 0x212a then b'k' else if c == 0x17f then b's' else to_lower_char c

abbrev names : Text → Text → Bool
names k name = text_eq (map fold_char k) (map fold_char name)

-- A later object for a map that has entries is stored into it.
abbrev merge : Fields → Fields → Fields
merge no_fields new = new
merge (field k v old) new = add_field k v (merge old new)

abbrev store_map : Json → Cursor → Option Cursor
store_map null c = some (record c { last_evaluated_key = no_fields })
store_map (object fs) c =
    some (record c { last_evaluated_key = merge c.last_evaluated_key (to_map fs) })
store_map _ c = none

abbrev store_index : Json → Cursor → Option Cursor
store_index null c = some c
store_index (string s) c = some (record c { index_name = s })
store_index _ c = none

abbrev store_sort : Json → Cursor → Option Cursor
store_sort null c = some c
store_sort (string s) c = some (record c { sort_direction = s })
store_sort _ c = none

-- A value of the wrong type makes Unmarshal fail in the end, whatever follows.
abbrev store_field : Text → Json → Cursor → Option Cursor
store_field k v c =
    if names k (codes "lastKey")
    then store_map v c
    else if names k (codes "index")
    then store_index v c
    else if names k (codes "sort")
    then store_sort v c
    else some c

unfoldable pub store_fields : Fields → Option Cursor → Option Cursor
unfolding text_eq to_lower_char to_map add_field
store_fields fs none = none
store_fields no_fields (some c) = some c
store_fields (field k v fs) (some c) = store_fields fs (store_field k v c)

abbrev pub store : Option Json → Option Cursor
store none = none
store (some null) = some zero_cursor
store (some (object fs)) = store_fields fs (some zero_cursor)
store (some _) = none

abbrev pub stored_as : Option Cursor → Result Error (Option Cursor)
stored_as (some c) = ok (some c)
stored_as none = err not_json

unfoldable pub decode_cursor : Text → Result Error (Option Cursor)
unfolding store_fields read Utf8.decode Base64.decode
decode_cursor [] = ok none
decode_cursor (c ∷ s) = do
  bytes ← decoded (Base64.decode url (c ∷ s))
  stored_as (store (read (Utf8.decode bytes)))
