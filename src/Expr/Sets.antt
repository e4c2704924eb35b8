-- ===== src/Expr/Sets.antt =====
-- convertToSetAttributeValue and addValueAsSet (internal/expr/builder.go).
use table_theory.Base.{ℕ, List, [], ◌∷◌, map, Text, Result, ok, err, map_err}
use table_theory.Base.Decimal.{format}
use table_theory.Validation.Value.{
  Value, string_value, any_slice, string_slice, int_slice, byte_slice, other_slice, Values,
  none_left, more, validate_value,
}
use table_theory.Expr.{
  AttributeValue, null_attr, string_set, number_set, binary_set, Error, invalid, wrapped, message,
  Action, ◌>>=◌, lift,
}
use table_theory.Expr.Convert.{format_int}
use table_theory.Expr.Names.{bind_value}

abbrev and_string : Text → Result Error (List Text) → Result Error (List Text)
and_string s (ok rest) = ok (s ∷ rest)
and_string s (err e) = err e

unfoldable pub strings_of : Values → Result Error (List Text)
strings_of none_left = ok []
strings_of (more (string_value s) rest) = and_string s (strings_of rest)
strings_of (more _ rest) = err (message "mixed types in string set")

abbrev string_set_of : Result Error (List Text) → Result Error AttributeValue
string_set_of (ok items) = ok (string_set items)
string_set_of (err e) = err e

-- The elements of a `[][]byte`
abbrev binaries_of : Values → List (List ℕ)
binaries_of (more (byte_slice bytes) rest) = bytes ∷ binaries_of rest
binaries_of _ = []

-- After the validation. A slice of bytes is a slice of numbers here.
unfoldable pub set_of : Value → Result Error AttributeValue
unfolding strings_of format
set_of (string_slice []) = ok null_attr
set_of (string_slice (s ∷ rest)) = ok (string_set (s ∷ rest))
set_of (any_slice none_left) = ok null_attr
set_of (any_slice (more (string_value s) rest)) =
    string_set_of (strings_of (more (string_value s) rest))
set_of (any_slice (more _ rest)) = err (message "unsupported set element type")
set_of (int_slice []) = ok null_attr
set_of (int_slice (n ∷ rest)) = ok (number_set (map format_int (n ∷ rest)))
set_of (byte_slice []) = ok null_attr
set_of (byte_slice (n ∷ rest)) = ok (number_set (map format (n ∷ rest)))
set_of (other_slice none_left) = ok null_attr
set_of (other_slice (more (byte_slice bytes) rest)) = ok (binary_set (bytes ∷ binaries_of rest))
set_of (other_slice (more _ rest)) = err (message "unsupported set element type")
set_of _ = err (message "DELETE operation requires a slice value for sets")

abbrev after_check :
    Result Error (Unit {0}) → Result Error AttributeValue → Result Error AttributeValue
after_check (ok valid) next = next
after_check (err e) next = err e

unfoldable pub convert_to_set_attribute_value : Value → Result Error AttributeValue
unfolding set_of
convert_to_set_attribute_value value =
    after_check
      (map_err (λ e. wrapped "security validation failed" (invalid e)) (validate_value value))
      (set_of value)

unfoldable pub add_value_as_set : Value → Action Text
unfolding convert_to_set_attribute_value bind_value
add_value_as_set value = do av ← lift (convert_to_set_attribute_value value); bind_value av
