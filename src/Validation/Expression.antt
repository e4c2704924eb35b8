-- ===== src/Validation/Expression.antt =====
-- ValidateExpression, ValidateTableName and ValidateIndexName (pkg/validation/field_validator.go).
use table_theory.Base.{
  ℕ, Bool, ◌&&◌, ◌||◌, not, List, [], ◌∷◌, map, Text, codes, to_lower, length, all, ltb, leb, ◌==◌,
  if◌then◌else◌, ok,
}
use table_theory.Validation.{
  Verdict, reject, max_expression_length, dangerous_patterns, contains_any_substring,
}

sql_injection_patterns : List Text
sql_injection_patterns = map codes (
    "union select" ∷ "insert into" ∷ "update set" ∷ "delete from" ∷ "drop table" ∷ "alter table"
    ∷ "exec " ∷ "execute " ∷ [])

pub validate_expression : Text → Verdict
validate_expression expression =
    if ltb max_expression_length (length expression)
    then reject "InvalidExpression" "expression exceeds maximum length"
    else if contains_any_substring (to_lower expression) dangerous_patterns
    then reject "InjectionAttempt" "expression contains dangerous pattern"
    else if contains_any_substring (to_lower expression) sql_injection_patterns
    then reject "InjectionAttempt" "expression contains dangerous pattern"
    else ok tt

-- One character of `^[a-zA-Z0-9_.-]+$`.
abbrev is_name_char : ℕ → Bool
is_name_char c =
    (leb b'a' c && leb c b'z')
    || (leb b'A' c && leb c b'Z')
    || (leb b'0' c && leb c b'9')
    || c == b'_'
    || c == b'.'
    || c == b'-'

abbrev length_invalid : Text → Bool
length_invalid name = ltb (length name) 3 || ltb 255 (length name)

-- The length test leaves no empty name for the pattern's `+` to refuse.
pub validate_table_name : Text → Verdict
validate_table_name name =
    if length_invalid name
    then reject "InvalidTableName" "table name length invalid"
    else if not (all is_name_char name)
    then reject "InvalidTableName" "table name contains invalid characters"
    else if contains_any_substring (to_lower name) dangerous_patterns
    then reject "InjectionAttempt" "table name contains dangerous pattern"
    else ok tt

pub validate_index_name : Text → Verdict
validate_index_name [] = ok tt
validate_index_name (c ∷ s) =
    if length_invalid (c ∷ s)
    then reject "InvalidIndexName" "index name length invalid"
    else if not (all is_name_char (c ∷ s))
    then reject "InvalidIndexName" "index name contains invalid characters"
    else ok tt
