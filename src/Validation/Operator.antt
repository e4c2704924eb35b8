-- ===== src/Validation/Operator.antt =====
-- ValidateOperator (pkg/validation/field_validator.go).
use table_theory.Base.{
  Bool, List, [], ◌∷◌, map, Text, codes, text_eq, to_upper, to_lower, trim_space, length, any, ltb,
  not, if◌then◌else◌, ok, ◌≡◌, refl,
}
use table_theory.Validation.{
  Verdict, reject, max_operator_length, dangerous_patterns, contains_any_substring,
}

unfoldable pub allowed_operators : List Text
allowed_operators = map codes (
    "=" ∷ "!=" ∷ "<>" ∷ "<" ∷ "<=" ∷ ">" ∷ ">=" ∷ "BETWEEN" ∷ "IN" ∷ "BEGINS_WITH" ∷ "CONTAINS"
    ∷ "EXISTS" ∷ "NOT_EXISTS" ∷ "ATTRIBUTE_EXISTS" ∷ "ATTRIBUTE_NOT_EXISTS" ∷ "EQ" ∷ "NE" ∷ "LT"
    ∷ "LE" ∷ "GT" ∷ "GE" ∷ [])

unfoldable pub is_allowed_operator : Text → Bool
unfolding text_eq allowed_operators
is_allowed_operator op = any (text_eq op) allowed_operators

unfoldable pub validate_operator : Text → Verdict
unfolding is_allowed_operator to_upper to_lower trim_space contains_any_substring dangerous_patterns
validate_operator [] = reject "InvalidOperator" "operator cannot be empty"
validate_operator (c ∷ s) =
    if ltb max_operator_length (length (c ∷ s))
    then reject "InvalidOperator" "operator exceeds maximum length"
    else if not (is_allowed_operator (to_upper (trim_space (c ∷ s))))
    then reject "InvalidOperator" "operator not allowed"
    else if contains_any_substring (to_lower (c ∷ s)) dangerous_patterns
    then reject "InjectionAttempt" "operator contains dangerous pattern"
    else ok tt

accepts_lower_case : validate_operator (codes "begins_with") ≡ ok tt
unfolding validate_operator
accepts_lower_case = refl

accepts_padding : validate_operator (codes " = ") ≡ ok tt
unfolding validate_operator
accepts_padding = refl
