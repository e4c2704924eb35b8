-- ===== src/Validation/Value/Rules.antt =====
-- What ValidateValue promises of a value that it accepts (pkg/validation/field_validator.go).
use table_theory.Base.{ℕ, ◌≤◌, ◌<◌, ◌≡◌, false, List, [], ◌∷◌, arith, Text, length, Assoc, ok}
use table_theory.Base.Int.{ℤ}
use table_theory.Validation.{reject}
use table_theory.Validation.Field.Grammar.{IsFieldPath, validate_field_name-IsFieldPath}
use table_theory.Validation.Value.{
  Value, nil_value, string_value, int_value, uint_value, float_value, bool_value, any_slice,
  string_slice, int_slice, byte_slice, any_map, string_map, int_map, named_string, other_slice,
  other_map, struct_value, inconvertible, pointer, unsupported, Values, none_left, more, Entries,
  end, entry, count_values, count_entries, is_dangerous_string, validate_string_value,
  validate_slice_length, validate_basic_value, validate_string_entries, validate_int_entries,
  validate_value, validate_items, validate_entries,
}

-- A string value within the limit and without an injection pattern.
abbrev pub IsCleanString : Text → Type 0
IsCleanString s = (length s ≤ 400000) × (is_dangerous_string s ≡ false)

abbrev pub IsSupported : Value → Type 0
IsSupported (pointer v) = IsSupported v
IsSupported unsupported = ⊥
IsSupported _ = Unit

abbrev pub AreCleanStrings : Assoc Text → Type 0
AreCleanStrings [] = Unit
AreCleanStrings ((key, value) ∷ rest) = IsFieldPath key × IsCleanString value × AreCleanStrings rest

abbrev pub ArePaths : Assoc ℤ → Type 0
ArePaths [] = Unit
ArePaths ((key, value) ∷ rest) = IsFieldPath key × ArePaths rest

-- What is accepted of a value. Of a value behind a pointer, a string of a named type, and a slice, a
-- map, an array or a struct of other types, only the kind is looked at.
abbrev mutual
  pub IsClean : Value → Type 0
  IsClean nil_value = Unit
  IsClean (string_value s) = IsCleanString s
  IsClean (int_value n) = Unit
  IsClean (uint_value n) = Unit
  IsClean (float_value t) = Unit
  IsClean (bool_value b) = Unit
  IsClean (any_slice items) = (count_values items ≤ 100) × AreClean items
  IsClean (string_slice items) = length items ≤ 100
  IsClean (int_slice items) = length items ≤ 100
  IsClean (byte_slice bytes) = length bytes ≤ 100
  IsClean (any_map entries) = (count_entries entries ≤ 100) × AreCleanEntries entries
  IsClean (string_map entries) = (length entries ≤ 100) × AreCleanStrings entries
  IsClean (int_map entries) = (length entries ≤ 100) × ArePaths entries
  IsClean (named_string s) = Unit
  IsClean (other_slice items) = Unit
  IsClean (other_map entries) = Unit
  IsClean (struct_value fields) = Unit
  IsClean inconvertible = Unit
  IsClean (pointer v) = IsSupported v
  IsClean unsupported = ⊥

  pub AreClean : Values → Type 0
  AreClean none_left = Unit
  AreClean (more item rest) = IsClean item × AreClean rest

  pub AreCleanEntries : Entries → Type 0
  AreCleanEntries end = Unit
  AreCleanEntries (entry key value rest) = IsFieldPath key × IsClean value × AreCleanEntries rest

validate_string_value_lem : (s : Text) → validate_string_value s ≡ ok tt → IsCleanString s
unfolding validate_string_value
validate_string_value_lem s h = ground arith

validate_slice_length_lem : (n : ℕ) → validate_slice_length n ≡ ok tt → n ≤ 100
unfolding validate_slice_length
validate_slice_length_lem n h = ground arith

IsSupported_lem : (v : Value) → validate_basic_value v ≡ ok tt → IsSupported v
unfolding validate_basic_value
IsSupported_lem (pointer v) h = IsSupported_lem v h
IsSupported_lem unsupported h = cc
IsSupported_lem _ h = tt

AreCleanStrings_lem :
    (entries : Assoc Text) → validate_string_entries entries ≡ ok tt → AreCleanStrings entries
unfolding validate_string_entries
AreCleanStrings_lem [] h = tt
AreCleanStrings_lem ((key, value) ∷ rest) h = (
  validate_field_name-IsFieldPath key (ground arith),
  validate_string_value_lem value (ground arith),
  AreCleanStrings_lem rest (ground arith),
)

ArePaths_lem : (entries : Assoc ℤ) → validate_int_entries entries ≡ ok tt → ArePaths entries
unfolding validate_int_entries
ArePaths_lem [] h = tt
ArePaths_lem ((key, value) ∷ rest) h =
    (validate_field_name-IsFieldPath key (ground arith), ArePaths_lem rest (ground arith))

mutual
  unfolding validate_value validate_items validate_entries

  IsClean_lem : (v : Value) → validate_value v ≡ ok tt → IsClean v
  IsClean_lem nil_value h = tt
  IsClean_lem (string_value s) h = validate_string_value_lem s h
  IsClean_lem (int_value n) h = tt
  IsClean_lem (uint_value n) h = tt
  IsClean_lem (float_value t) h = tt
  IsClean_lem (bool_value b) h = tt
  IsClean_lem (any_slice items) h = (ground arith, AreClean_lem items (ground arith))
  IsClean_lem (string_slice items) h = validate_slice_length_lem (length items) h
  IsClean_lem (int_slice items) h = validate_slice_length_lem (length items) h
  IsClean_lem (byte_slice bytes) h = validate_slice_length_lem (length bytes) h
  IsClean_lem (any_map entries) h = (ground arith, AreCleanEntries_lem entries (ground arith))
  IsClean_lem (string_map entries) h = (ground arith, AreCleanStrings_lem entries (ground arith))
  IsClean_lem (int_map entries) h = (ground arith, ArePaths_lem entries (ground arith))
  IsClean_lem (named_string s) h = tt
  IsClean_lem (other_slice items) h = tt
  IsClean_lem (other_map entries) h = tt
  IsClean_lem (struct_value fields) h = tt
  IsClean_lem inconvertible h = tt
  IsClean_lem (pointer v) h = IsSupported_lem v h
  IsClean_lem unsupported h = cc

  AreClean_lem : (items : Values) → validate_items items ≡ ok tt → AreClean items
  AreClean_lem none_left h = tt
  AreClean_lem (more item rest) h =
      (IsClean_lem item (ground arith), AreClean_lem rest (ground arith))

  AreCleanEntries_lem :
      (entries : Entries) → validate_entries entries ≡ ok tt → AreCleanEntries entries
  AreCleanEntries_lem end h = tt
  AreCleanEntries_lem (entry key value rest) h = (
    validate_field_name-IsFieldPath key (ground arith),
    IsClean_lem value (ground arith),
    AreCleanEntries_lem rest (ground arith),
  )

-- Of a value that ValidateValue accepts: a `string` fits the size limit and holds no injection pattern;
-- a `[]any` and a slice of strings, integers or bytes have at most 100 elements, and a
-- `map[string]any`, `map[string]string` or `map[string]int` at most 100 keys, which are document paths;
-- the same holds of the elements of a `[]any` and of the values in a `map[string]any` or a
-- `map[string]string`. A value behind pointers is not a function, a channel, an unsafe pointer, a
-- uintptr or a complex number, and neither is any value that is accepted. Nothing is said of the
-- contents and the size of what is behind a pointer, of strings of named types, and of slices, maps,
-- arrays and structs of other types, which are accepted as they are.
pub validate_value-IsClean : (v : Value) → validate_value v ≡ ok tt → IsClean v
validate_value-IsClean = IsClean_lem

-- A byte slice of more than 100 bytes is refused: the element limit of the IN operator is applied to
-- binary values.
pub validate_value-byte_slice :
    (bytes : List ℕ)
    → 100 < length bytes
    → validate_value (byte_slice bytes) ≡ reject "InvalidValue" "slice value exceeds maximum length"
unfolding validate_value validate_slice_length
validate_value-byte_slice bytes h = ground arith
