-- ===== src/Expr/Convert.antt =====
-- ConvertToAttributeValue (internal/expr/converter.go) and its guarded form
-- ConvertToAttributeValueSecure (internal/expr/builder.go). A struct has the fields that are
-- marshalled, by their attribute names; values with a marshaler of their own are left out.
use table_theory.Base.{
  suc, List, [], ◌∷◌, ◌++◌, map, Text, codes, Assoc, Result, ok, err, ◌>>=◌, ◌>>◌, map_err,
}
use table_theory.Base.Decimal.{format}
use table_theory.Base.Int.{ℤ, pos, negsuc}
use table_theory.Validation.Value.{
  Value, nil_value, string_value, int_value, uint_value, float_value, bool_value, any_slice,
  string_slice, int_slice, byte_slice, any_map, string_map, int_map, named_string, other_slice,
  other_map, struct_value, inconvertible, pointer, unsupported, Values, none_left, more, Entries,
  end, entry, validate_value,
}
use table_theory.Expr.{
  AttributeValue, string_attr, number_attr, binary_attr, bool_attr, null_attr, list_attr, map_attr,
  Attributes, no_more, also, Members, closed, member, Error, invalid, wrapped, message,
}

-- `%d` of a signed integer
unfoldable pub format_int : ℤ → Text
unfolding format
format_int (pos n) = format n
format_int (negsuc n) = codes "-" ++ format (suc n)

abbrev list_of : List AttributeValue → Attributes
list_of [] = no_more
list_of (item ∷ rest) = also item (list_of rest)

abbrev string_members : Assoc Text → Members
string_members [] = closed
string_members ((key, value) ∷ rest) = member key (string_attr value) (string_members rest)

abbrev int_members : Assoc ℤ → Members
int_members [] = closed
int_members ((key, value) ∷ rest) = member key (number_attr (format_int value)) (int_members rest)

unfoldable mutual
  pub convert_to_attribute_value : Value → Result Error AttributeValue
  convert_to_attribute_value nil_value = ok null_attr
  convert_to_attribute_value (string_value s) = ok (string_attr s)
  convert_to_attribute_value (int_value n) = ok (number_attr (format_int n))
  convert_to_attribute_value (uint_value n) = ok (number_attr (format n))
  convert_to_attribute_value (float_value t) = ok (number_attr t)
  convert_to_attribute_value (bool_value b) = ok (bool_attr b)
  convert_to_attribute_value (any_slice items) = do list ← convert_items items; ok (list_attr list)
  convert_to_attribute_value (string_slice items) = ok (list_attr (list_of (map string_attr items)))
  convert_to_attribute_value (int_slice items) =
      ok (list_attr (list_of (map (λ n. number_attr (format_int n)) items)))
  convert_to_attribute_value (byte_slice bytes) = ok (binary_attr bytes)
  convert_to_attribute_value (any_map entries) = do
    members ← convert_entries entries
    ok (map_attr members)
  convert_to_attribute_value (string_map entries) = ok (map_attr (string_members entries))
  convert_to_attribute_value (int_map entries) = ok (map_attr (int_members entries))
  convert_to_attribute_value (named_string s) = ok (string_attr s)
  convert_to_attribute_value (other_slice items) = do
    list ← convert_items items
    ok (list_attr list)
  convert_to_attribute_value (other_map entries) = do
    members ← convert_entries entries
    ok (map_attr members)
  convert_to_attribute_value (struct_value fields) = do
    members ← map_err (wrapped "failed to convert field") (convert_entries fields)
    ok (map_attr members)
  convert_to_attribute_value inconvertible = err (message "unsupported type")
  convert_to_attribute_value (pointer v) = convert_to_attribute_value v
  convert_to_attribute_value unsupported = err (message "unsupported type")

  convert_items : Values → Result Error Attributes
  convert_items none_left = ok no_more
  convert_items (more item rest) = do
    first ← convert_to_attribute_value item
    others ← convert_items rest
    ok (also first others)

  convert_entries : Entries → Result Error Members
  convert_entries end = ok closed
  convert_entries (entry key value rest) = do
    first ← convert_to_attribute_value value
    others ← convert_entries rest
    ok (member key first others)

unfoldable pub convert_to_attribute_value_secure : Value → Result Error AttributeValue
unfolding validate_value convert_to_attribute_value format_int
convert_to_attribute_value_secure value = do
  map_err (λ e. wrapped "security validation failed" (invalid e)) (validate_value value)
  convert_to_attribute_value value
