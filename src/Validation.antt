-- ===== src/Validation.antt =====
-- pkg/validation/field_validator.go: the errors, the limits and the pattern lists that the
-- validators of field names, operators, values and expressions share.
pub mod Field
pub mod Operator
pub mod Value
pub mod Expression
mod Examples
use table_theory.Base.{ℕ, String, Bool, List, [], ◌∷◌, map, Text, codes, contains, any, Result, err}

-- struct SecurityError; `Field` is left empty by every validator
pub record SecurityError : Type 0 where
  pub kind : String
  pub detail : String

-- What a validator returns: a SecurityError, or the plain error of `validateFieldPart`.
pub data Error : Type 0 where
  security : SecurityError → Error
  plain : String → Error

abbrev pub security_error : String → String → Error
security_error kind detail = security (record { kind = kind; detail = detail })

-- The result of a validator that has nothing but an error to return.
abbrev pub Verdict : Type 0
Verdict = Result Error (Unit {0})

abbrev pub reject : String → String → Verdict
reject kind detail = err (security_error kind detail)

abbrev pub max_field_name_length : ℕ
max_field_name_length = 255

abbrev pub max_operator_length : ℕ
max_operator_length = 20

abbrev pub max_value_string_length : ℕ
max_value_string_length = 400000

abbrev pub max_nested_depth : ℕ
max_nested_depth = 32

abbrev pub max_expression_length : ℕ
max_expression_length = 4096

unfoldable pub dangerous_patterns : List Text
dangerous_patterns = map codes (
    "'" ∷ "\"" ∷ ";" ∷ "--" ∷ "/*" ∷ "*/" ∷ "<script" ∷ "</script" ∷ "eval(" ∷ "expression("
    ∷ "import(" ∷ "require(" ∷ [])

unfoldable pub sql_keywords : List Text
sql_keywords = map codes (
    "union" ∷ "select" ∷ "insert" ∷ "update" ∷ "delete" ∷ "drop" ∷ "alter" ∷ "exec" ∷ "execute"
    ∷ "script" ∷ "javascript" ∷ "vbscript" ∷ [])

-- containsAnySubstring
unfoldable pub contains_any_substring : Text → List Text → Bool
unfolding contains
contains_any_substring haystack needles = any (contains haystack) needles
