-- ===== src/Expr/Conditions.antt =====
-- buildCondition (internal/expr/builder.go): one condition over placeholders.
use table_theory.Base.{
  String, Bool, List, [], ◌∷◌, ◌++◌, map, Text, codes, text_eq, join, to_upper, length, any, ltb,
  if◌then◌else◌, Result, ok, err, map_err, ◌≡◌, refl, ◌∙◌,
}
use table_theory.Validation.{security_error, Verdict}
use table_theory.Validation.Field.{validate_field_name}
use table_theory.Validation.Operator.{validate_operator}
use table_theory.Validation.Value.{
  Value, int_value, string_value, any_slice, string_slice, int_slice, Values, none_left, more,
  validate_value, validate_string_value,
}
use table_theory.Expr.{
  Builder, Error, invalid, wrapped, invalid_operator, Action, ◌>>=◌, ◌>>◌, pure, raise, lift,
}
use table_theory.Expr.Names.{add_name_secure, add_name, add_value_secure}

abbrev pub wrap_invalid : String → Verdict → Result Error (Unit {0})
wrap_invalid context verdict = map_err (λ e. wrapped context (invalid e)) verdict

abbrev is_one_of : Text → List Text → Bool
is_one_of op spellings = any (text_eq op) spellings

-- `name op value`
unfoldable pub compared : Text → Text → Value → Action Text
compared name_ref op value = do
  value_ref ← add_value_secure value
  pure (name_ref ++ (op ++ value_ref))

-- `function(name, value)`
unfoldable pub applied : Text → Text → Value → Action Text
applied function name_ref value = do
  value_ref ← add_value_secure value
  pure (function ++ (codes "(" ++ (name_ref ++ (codes ", " ++ (value_ref ++ codes ")")))))

-- `name BETWEEN low AND high`
unfoldable pub two_values : Text → Value → Value → Action Text
two_values name_ref low high = do
  low_ref ← add_value_secure low
  high_ref ← add_value_secure high
  pure (name_ref ++ (codes " BETWEEN " ++ (low_ref ++ (codes " AND " ++ high_ref))))

unfoldable pub between : Text → Value → Action Text
unfolding two_values
between name_ref (any_slice (more low (more high none_left))) = two_values name_ref low high
between name_ref _ =
    raise (invalid (security_error "InvalidValue" "BETWEEN operator requires exactly two values"))

abbrev put_first : String → Verdict → Value → Result Error (List Value) → Result Error (List Value)
put_first detail (err e) item rest = err (invalid (security_error "InvalidValue" detail))
put_first detail (ok valid) item (err e) = err e
put_first detail (ok valid) item (ok items) = ok (item ∷ items)

-- The loops of convertToSliceSecure.
unfoldable pub checked_items : Values → Result Error (List Value)
checked_items none_left = ok []
checked_items (more item rest) =
    put_first "invalid slice item" (validate_value item) item (checked_items rest)

unfoldable pub checked_strings : List Text → Result Error (List Value)
checked_strings [] = ok []
checked_strings (s ∷ rest) =
    put_first "invalid string item" (validate_string_value s) (string_value s)
      (checked_strings rest)

unfoldable pub convert_to_slice_secure : Value → Result Error (List Value)
unfolding checked_items checked_strings
convert_to_slice_secure (any_slice items) = checked_items items
convert_to_slice_secure (string_slice items) = checked_strings items
convert_to_slice_secure (int_slice items) = ok (map int_value items)
convert_to_slice_secure _ =
    err (invalid (security_error "InvalidValue" "value must be a slice for IN operator"))

unfoldable pub add_values : List Value → Action (List Text)
add_values [] = pure []
add_values (value ∷ rest) = do
  value_ref ← add_value_secure value
  value_refs ← add_values rest
  pure (value_ref ∷ value_refs)

unfoldable pub in_values : Text → Value → Action Text
unfolding convert_to_slice_secure add_values
in_values name_ref value = do
  values ← lift (convert_to_slice_secure value)
  if ltb 100 (length values)
      then raise (invalid (security_error "InvalidValue" "IN operator supports maximum 100 values"))
      else do
        value_refs ← add_values values
        pure (name_ref ++ (codes " IN (" ++ (join (codes ", ") value_refs ++ codes ")")))

-- The `switch` on the operator in capitals.
unfoldable pub condition_of : Text → Text → Value → Action Text
unfolding compared applied between in_values
condition_of op name_ref value =
    if is_one_of op (codes "=" ∷ codes "EQ" ∷ [])
    then compared name_ref (codes " = ") value
    else if is_one_of op (codes "!=" ∷ codes "<>" ∷ codes "NE" ∷ [])
    then compared name_ref (codes " <> ") value
    else if is_one_of op (codes "<" ∷ codes "LT" ∷ [])
    then compared name_ref (codes " < ") value
    else if is_one_of op (codes "<=" ∷ codes "LE" ∷ [])
    then compared name_ref (codes " <= ") value
    else if is_one_of op (codes ">" ∷ codes "GT" ∷ [])
    then compared name_ref (codes " > ") value
    else if is_one_of op (codes ">=" ∷ codes "GE" ∷ [])
    then compared name_ref (codes " >= ") value
    else if text_eq op (codes "BETWEEN")
    then between name_ref value
    else if text_eq op (codes "IN")
    then in_values name_ref value
    else if text_eq op (codes "BEGINS_WITH")
    then applied (codes "begins_with") name_ref value
    else if text_eq op (codes "CONTAINS")
    then applied (codes "contains") name_ref value
    else if is_one_of op (codes "EXISTS" ∷ codes "ATTRIBUTE_EXISTS" ∷ [])
    then pure (codes "attribute_exists(" ++ (name_ref ++ codes ")"))
    else if is_one_of op (codes "NOT_EXISTS" ∷ codes "ATTRIBUTE_NOT_EXISTS" ∷ [])
    then pure (codes "attribute_not_exists(" ++ (name_ref ++ codes ")"))
    else raise (wrapped "unsupported operator" invalid_operator)

abbrev pub first_error : Result Error (Unit {0}) → Result Error (Unit {0}) → Result Error (Unit {0})
first_error (ok valid) next = next
first_error (err e) next = err e

unfoldable pub validate_inputs : Text → Text → Value → Result Error (Unit {0})
unfolding validate_field_name validate_operator validate_value
validate_inputs field operator value =
    first_error (wrap_invalid "invalid field name" (validate_field_name field)) (
      first_error (wrap_invalid "invalid operator" (validate_operator operator))
        (wrap_invalid "invalid value" (validate_value value)))

unfoldable pub build_condition : Text → Text → Value → Action Text
unfolding validate_inputs condition_of
build_condition field operator value = do
  lift (validate_inputs field operator value)
  name_ref ← add_name field
  condition_of (to_upper operator) name_ref value

pub build_condition_lem :
    (field operator : Text) (value : Value) (b : Builder)
    → validate_inputs field operator value ≡ ok tt
    → build_condition field operator value b
      ≡ condition_of
          (to_upper operator)
          (add_name_secure field b).1
          value
          (add_name_secure field b).0
build_condition_lem field operator value b valid = opened ∙ rw valid
  where
    opened :
        build_condition field operator value b
        ≡ (do
          lift (validate_inputs field operator value)
          name_ref ← add_name field
          condition_of (to_upper operator) name_ref value)
            b
    opened = unfold build_condition in refl

pub condition_of_equality :
    (name_ref : Text) (value : Value)
    → condition_of (to_upper (codes "=")) name_ref value ≡ compared name_ref (codes " = ") value
unfolding condition_of to_upper text_eq
condition_of_equality name_ref value = refl

pub validate_inputs_lem :
    (field operator : Text) (value : Value)
    → validate_inputs field operator value
      ≡ first_error (wrap_invalid "invalid field name" (validate_field_name field)) (
          first_error
            (wrap_invalid "invalid operator" (validate_operator operator))
            (wrap_invalid "invalid value" (validate_value value)))
unfolding validate_inputs
validate_inputs_lem field operator value = refl
