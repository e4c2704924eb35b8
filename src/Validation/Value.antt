-- ===== src/Validation/Value.antt =====
-- ValidateValue and its helpers (pkg/validation/field_validator.go), over the Go values that a
-- condition or an update takes.
pub mod Rules
use table_theory.Base.{
  ℕ, Bool, ◌&&◌, ◌||◌, not, List, [], ◌∷◌, map, Text, codes, contains, ends_with, to_lower, length,
  ltb, if◌then◌else◌, ok, err, ◌≡◌, refl, Assoc,
}
use table_theory.Base.Int.{ℤ}
use table_theory.Validation.{Verdict, reject, max_value_string_length, contains_any_substring}
use table_theory.Validation.Field.{validate_field_name}

-- `any`: the values by their Go types. A float carries the text that `%g` prints. A `named_string` is
-- of a named string type. An `other_slice` has slices, maps, structs or pointers for elements, an
-- `other_map` has string keys and is of none of the three map types before it, and a `struct_value`
-- has the fields that are marshalled; `inconvertible` is an array or a map with other keys, and
-- `unsupported` a function, channel, unsafe pointer, uintptr or complex number. Left out are slices of
-- floats and of bools, times, and values with a marshaler of their own.
mutual
  pub data Value : Type 0 where
    nil_value : Value
    string_value : Text → Value
    int_value : ℤ → Value
    uint_value : ℕ → Value
    float_value : Text → Value
    bool_value : Bool → Value
    any_slice : Values → Value
    string_slice : List Text → Value
    int_slice : List ℤ → Value
    byte_slice : List ℕ → Value
    any_map : Entries → Value
    string_map : Assoc Text → Value
    int_map : Assoc ℤ → Value
    named_string : Text → Value
    other_slice : Values → Value
    other_map struct_value : Entries → Value
    pointer : Value → Value
    inconvertible unsupported : Value

  pub data Values : Type 0 where
    none_left : Values
    more : Value → Values → Values

  pub data Entries : Type 0 where
    end : Entries
    entry : Text → Value → Entries → Entries

abbrev pub count_values : Values → ℕ
count_values none_left = 0
count_values (more v vs) = ℕ.suc (count_values vs)

abbrev pub count_entries : Entries → ℕ
count_entries end = 0
count_entries (entry k v es) = ℕ.suc (count_entries es)

value_script_patterns : List Text
value_script_patterns = map codes (
    "<script" ∷ "</script" ∷ "eval(" ∷ "expression(" ∷ "import(" ∷ "require(" ∷ "javascript:"
    ∷ "vbscript:" ∷ "onload=" ∷ "onerror=" ∷ "onclick=" ∷ [])

value_sql_injection_patterns : List Text
value_sql_injection_patterns = map codes (
    "'; drop table" ∷ "'; delete from" ∷ "'; update " ∷ "'; insert into" ∷ "\"; drop table"
    ∷ "\"; delete from" ∷ "\"; update " ∷ "\"; insert into" ∷ "' or 1=1" ∷ "\" or 1=1"
    ∷ "' or '1'='1" ∷ "\" or \"1\"=\"1" ∷ "/**/union/**/select" ∷ "concat(0x" ∷ "char("
    ∷ "load_file(" ∷ "--" ∷ [])

looks_like_union_select_injection : Text → Text → Bool
looks_like_union_select_injection string_lower raw =
    contains string_lower (codes "union")
    && contains string_lower (codes "select")
    && contains_any_substring string_lower
        (codes "union select" ∷ codes "union all select" ∷ codes "union/**/select" ∷ [])
    && (contains string_lower (codes "from")
        || contains string_lower (codes "*")
        || ends_with (codes "--") raw
        || ends_with (codes ";") raw)

pub is_dangerous_string : Text → Bool
is_dangerous_string s =
    contains_any_substring (to_lower s) value_script_patterns
    || (contains s (codes "/*") && contains s (codes "*/"))
    || contains_any_substring (to_lower s) value_sql_injection_patterns
    || looks_like_union_select_injection (to_lower s) s

pub validate_string_value : Text → Verdict
validate_string_value s =
    if ltb max_value_string_length (length s)
    then reject "InvalidValue" "string value exceeds maximum length"
    else if is_dangerous_string s
    then reject "InjectionAttempt" "string value contains dangerous pattern"
    else ok tt

pub validate_slice_length : ℕ → Verdict
validate_slice_length n =
    if ltb 100 n then reject "InvalidValue" "slice value exceeds maximum length" else ok tt

-- validateBasicValue unwraps pointers; what it finds behind them is refused by its kind alone.
pub validate_basic_value : Value → Verdict
validate_basic_value (pointer v) = validate_basic_value v
validate_basic_value unsupported = reject "InvalidValue" "unsupported value type"
validate_basic_value _ = ok tt

abbrev instead : Verdict → Verdict → Verdict → Verdict
instead (ok done) bad rest = rest
instead (err e) bad rest = bad

pub validate_string_entries : Assoc Text → Verdict
validate_string_entries [] = ok tt
validate_string_entries ((key, value) ∷ rest) =
    instead (validate_field_name key) (reject "InvalidValue" "invalid map key") (
      instead (validate_string_value value) (reject "InvalidValue" "invalid map value")
        (validate_string_entries rest))

-- An int passes ValidateValue, so only its key is tested.
pub validate_int_entries : Assoc ℤ → Verdict
validate_int_entries [] = ok tt
validate_int_entries ((key, value) ∷ rest) =
    instead (validate_field_name key) (reject "InvalidValue" "invalid map key")
      (validate_int_entries rest)

abbrev keys_bounded : ℕ → Verdict → Verdict
keys_bounded n rest =
    if ltb 100 n then reject "InvalidValue" "map value exceeds maximum keys" else rest

unfoldable mutual
  pub validate_value : Value → Verdict
  validate_value nil_value = ok tt
  validate_value (string_value s) = validate_string_value s
  validate_value (int_value n) = ok tt
  validate_value (uint_value n) = ok tt
  validate_value (float_value t) = ok tt
  validate_value (bool_value b) = ok tt
  validate_value (any_slice items) =
      if ltb 100 (count_values items)
      then reject "InvalidValue" "slice value exceeds maximum length of 100 items"
      else validate_items items
  validate_value (string_slice items) = validate_slice_length (length items)
  validate_value (int_slice items) = validate_slice_length (length items)
  validate_value (byte_slice bytes) = validate_slice_length (length bytes)
  validate_value (any_map entries) = keys_bounded (count_entries entries) (validate_entries entries)
  validate_value (string_map entries) =
      keys_bounded (length entries) (validate_string_entries entries)
  validate_value (int_map entries) = keys_bounded (length entries) (validate_int_entries entries)
  validate_value (named_string s) = validate_basic_value (named_string s)
  validate_value (other_slice items) = validate_basic_value (other_slice items)
  validate_value (other_map entries) = validate_basic_value (other_map entries)
  validate_value (struct_value fields) = validate_basic_value (struct_value fields)
  validate_value inconvertible = validate_basic_value inconvertible
  validate_value (pointer v) = validate_basic_value v
  validate_value unsupported = reject "InvalidValue" "unsupported value type"

  validate_items : Values → Verdict
  validate_items none_left = ok tt
  validate_items (more item rest) =
      instead (validate_value item) (reject "InvalidValue" "invalid item in collection")
        (validate_items rest)

  validate_entries : Entries → Verdict
  validate_entries end = ok tt
  validate_entries (entry key value rest) =
      instead (validate_field_name key) (reject "InvalidValue" "invalid map key") (
        instead (validate_value value) (reject "InvalidValue" "invalid map value")
          (validate_entries rest))
