-- ===== src/Validation/Examples.antt =====
-- The theorems about the validators at concrete inputs.
use table_theory.Base.{◌≡◌, refl, replicate, codes, arith}
use table_theory.Base.Int.{pos}
use table_theory.Validation.{reject}
use table_theory.Validation.Field.{validate_field_name}
use table_theory.Validation.Field.Grammar.{IsFieldPath, validate_field_name-IsFieldPath}
use table_theory.Validation.Value.{
  Value, int_value, any_slice, any_map, byte_slice, more, none_left, entry, end, validate_value,
}
use table_theory.Validation.Value.Rules.{IsClean, validate_value-IsClean, validate_value-byte_slice}

validate_field_name-IsFieldPath_example : IsFieldPath (codes "profile.tags[3]")
unfolding validate_field_name
validate_field_name-IsFieldPath_example =
    validate_field_name-IsFieldPath (codes "profile.tags[3]") refl

abbrev settings : Value
settings = any_map (
    entry (codes "limit") (int_value (pos 5))
      (entry (codes "ids") (any_slice (more (int_value (pos 1)) none_left)) end))

validate_value-IsClean_example : IsClean settings
unfolding validate_value validate_field_name
validate_value-IsClean_example = validate_value-IsClean settings refl

-- A binary value of 101 bytes meets the limit on the items of a slice.
rejects_bytes :
    validate_value (byte_slice (replicate 101 0))
    ≡ reject "InvalidValue" "slice value exceeds maximum length"
rejects_bytes = validate_value-byte_slice (replicate 101 0) (omega arith)
