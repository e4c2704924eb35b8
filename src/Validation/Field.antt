-- ===== src/Validation/Field.antt =====
-- ValidateFieldName and its helpers (pkg/validation/field_validator.go).
pub mod Grammar
use table_theory.Base.{
  ℕ, suc, ◌-◌, Bool, true, false, ◌&&◌, ◌||◌, not, Option, some, List, [], ◌∷◌, ◌++◌, Text, codes,
  text_eq, contains, split, to_lower, index_of, last_index_of, length, take, drop, any, all, ltb,
  leb, ◌==◌, if◌then◌else◌, ok, err, ◌>>◌, ◌≡◌, refl,
}
use table_theory.Validation.{
  plain, Verdict, reject, max_field_name_length, max_nested_depth, dangerous_patterns, sql_keywords,
  contains_any_substring,
}

validate_field_name_basics : Text → Verdict
validate_field_name_basics [] = reject "InvalidField" "field name cannot be empty"
validate_field_name_basics (c ∷ s) =
    if ltb max_field_name_length (length (c ∷ s))
    then reject "InvalidField" "field name exceeds maximum length"
    else ok tt

-- The texts of `^stem(mid)_?(end)$`.
abbrev endings : Text → List Text → List Text
endings front [] = []
endings front (end ∷ ends) = (front ++ end) ∷ (front ++ b'_' ∷ end) ∷ endings front ends

abbrev stems : Text → List Text → List Text → List Text
stems stem [] ends = []
stems stem (mid ∷ mids) ends = endings (stem ++ mid) ends ++ stems stem mids ends

abbrev timestamps : List Text
timestamps = codes "at" ∷ codes "time" ∷ codes "date" ∷ []

-- The six patterns of legitimateFieldPatterns, each a finite set of lower-case texts.
legitimate_field_patterns : List (List Text)
legitimate_field_patterns =
    (codes "createdat" ∷ codes "updatedat" ∷ [])
    ∷ stems (codes "create") (codes "d" ∷ codes "r" ∷ []) timestamps
    ∷ stems (codes "update") (codes "d" ∷ codes "r" ∷ []) timestamps
    ∷ stems (codes "delete") (codes "d" ∷ codes "r" ∷ []) (codes "flag" ∷ timestamps)
    ∷ stems (codes "insert") (codes "ed" ∷ codes "er" ∷ []) timestamps
    ∷ stems (codes "select") (codes "ed" ∷ codes "or" ∷ []) timestamps
    ∷ []

is_legitimate_field_name : Text → Bool
is_legitimate_field_name field =
    any (λ pattern. any (text_eq (to_lower field)) pattern) legitimate_field_patterns

is_standalone_or_suspicious_keyword : Text → Text → Bool
is_standalone_or_suspicious_keyword field_lower keyword =
    text_eq field_lower keyword
    || any (contains field_lower) (
        (keyword ++ codes ";")
        ∷ (codes ";" ++ keyword)
        ∷ (keyword ++ codes " ")
        ∷ (codes " " ++ keyword)
        ∷ (keyword ++ codes ".")
        ∷ (codes "." ++ keyword)
        ∷ (keyword ++ codes "-")
        ∷ (codes "-" ++ keyword)
        ∷ [])

-- The loop over sqlKeywords.
check_keywords : List Text → Text → Text → Verdict
check_keywords [] field_lower field = ok tt
check_keywords (keyword ∷ rest) field_lower field =
    let next = check_keywords rest field_lower field in
    if not (contains field_lower keyword)
    then next
    else if is_legitimate_field_name field
    then next
    else if is_standalone_or_suspicious_keyword field_lower keyword
    then reject "InjectionAttempt" "field name contains suspicious content"
    else next

validate_field_name_keywords : Text → Text → Verdict
validate_field_name_keywords field_lower field = check_keywords sql_keywords field_lower field

-- unicode.IsControl
abbrev is_control : ℕ → Bool
is_control r = ltb r 32 || (leb 127 r && ltb r 160)

contains_control_characters : Text → Bool
contains_control_characters field = any is_control field

abbrev pub is_letter : ℕ → Bool
is_letter c = (leb b'a' c && leb c b'z') || (leb b'A' c && leb c b'Z')

abbrev pub is_digit : ℕ → Bool
is_digit c = leb b'0' c && leb c b'9'

abbrev pub is_word : ℕ → Bool
is_word c = is_letter c || is_digit c || c == b'_'

-- ^[a-zA-Z_][a-zA-Z0-9_]*$
abbrev pub is_identifier : Text → Bool
is_identifier [] = false
is_identifier (c ∷ s) = (is_letter c || c == b'_') && all is_word s

-- ^[0-9]+$
abbrev pub is_number : Text → Bool
is_number [] = false
is_number (c ∷ s) = all is_digit (c ∷ s)

abbrev is_empty : Text → Bool
is_empty [] = true
is_empty (c ∷ s) = false

-- A part with both brackets: `name[index]`, where the brackets stand at `start` and `stop`.
list_element : Text → ℕ → ℕ → Verdict
list_element part start stop =
    if leb stop start
    then err (plain "invalid bracket syntax in field part")
    else if not (is_identifier (take start part))
    then err (
        plain
          "field name part must start with letter or underscore and contain only alphanumeric characters and underscores")
    else if not (is_number (take (stop - suc start) (drop (suc start) part)))
    then err (plain "list index must be a number")
    else if not (is_empty (drop (suc stop) part))
    then err (plain "unexpected characters after list index")
    else ok tt

whole_identifier : Text → Verdict
whole_identifier part =
    if is_identifier part
    then ok tt
    else err (
        plain
          "field part must start with letter or underscore and contain only alphanumeric characters and underscores")

-- `strings.Contains(part, "[") && strings.Contains(part, "]")` holds where both indexes exist.
bracketed : Text → Option ℕ → Option ℕ → Verdict
bracketed part (some start) (some stop) = list_element part start stop
bracketed part _ _ = whole_identifier part

pub validate_field_part : Text → Verdict
validate_field_part [] = err (plain "field part cannot be empty")
validate_field_part (c ∷ s) = bracketed (c ∷ s) (index_of b'[' (c ∷ s)) (last_index_of b']' (c ∷ s))

abbrev on_invalid_part : Verdict → Verdict → Verdict
on_invalid_part (ok done) rest = rest
on_invalid_part (err e) rest = reject "InvalidField" "invalid field part"

validate_parts : List Text → Verdict
validate_parts [] = ok tt
validate_parts (part ∷ rest) = on_invalid_part (validate_field_part part) (validate_parts rest)

validate_nested_field_path : Text → Verdict
validate_nested_field_path field =
    if ltb max_nested_depth (length (split b'.' field))
    then reject "InvalidField" "nested field depth exceeds maximum"
    else validate_parts (split b'.' field)

validate_path : Text → Verdict
validate_path field =
    if contains field (codes ".")
    then validate_nested_field_path field
    else validate_field_part field

-- The tests after the length: patterns, keywords, control characters, then the parts.
validate_contents : Text → Verdict
validate_contents field =
    if contains_any_substring (to_lower field) dangerous_patterns
    then reject "InjectionAttempt" "field name contains dangerous pattern"
    else do
      validate_field_name_keywords (to_lower field) field
      if contains_control_characters field
          then reject "InvalidField" "field name contains control characters"
          else validate_path field

unfoldable pub validate_field_name : Text → Verdict
unfolding validate_field_name_basics validate_contents to_lower contains contains_any_substring
    dangerous_patterns sql_keywords validate_field_name_keywords check_keywords
    is_legitimate_field_name legitimate_field_patterns is_standalone_or_suspicious_keyword text_eq
    contains_control_characters validate_path validate_nested_field_path validate_parts split
    validate_field_part index_of last_index_of bracketed list_element whole_identifier
validate_field_name field = do validate_field_name_basics field; validate_contents field

validate_field_name_lem :
    (field : Text)
    → validate_field_name field ≡ (validate_field_name_basics field >> validate_contents field)
unfolding validate_field_name
validate_field_name_lem field = refl

accepts_nested : validate_field_name (codes "profile.tags[3]") ≡ ok tt
unfolding validate_field_name
accepts_nested = refl

accepts_created_at : validate_field_name (codes "update_at") ≡ ok tt
unfolding validate_field_name
accepts_created_at = refl

rejects_drop :
    validate_field_name (codes "drop")
    ≡ reject "InjectionAttempt" "field name contains suspicious content"
unfolding validate_field_name
rejects_drop = refl
