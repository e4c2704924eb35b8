-- ===== src/Expr/Updates.antt =====
-- The builder's update actions (internal/expr/builder.go).
use table_theory.Base.{
  ℕ, zero, suc, ◌-◌, String, Bool, false, ◌&&◌, not, Option, none, some, List, [], ◌∷◌, ◌++◌, Text,
  codes, text_eq, contains, ends_with, last_index_of, lookup, insert, take, drop, length, all, leb,
  to_lower, if◌then◌else◌, Result, ok, err, map_err,
}
use table_theory.Base.Decimal.{format, is_digit, atoi}
use table_theory.Validation.{security_error}
use table_theory.Validation.Field.{validate_field_name}
use table_theory.Validation.Value.{Value, string_value}
use table_theory.Expr.{
  Builder, Error, invalid, wrapped, message, Action, ◌>>=◌, ◌>>◌, pure, raise, lift,
}
use table_theory.Expr.Names.{add_name, add_value_secure}
use table_theory.Expr.Sets.{add_value_as_set}

abbrev invalid_field : {A : Type 0} → String → Result Error A
invalid_field detail = err (invalid (security_error "InvalidField" detail))

-- The text between the last `[` at `start` and the `]` that ends the field.
abbrev index_part : Text → ℕ → Text
index_part field start = take (length field - 1 - suc start) (drop (suc start) field)

abbrev parsed_index : Text → Option ℕ → Result Error (Option (Text × ℕ))
parsed_index name none = invalid_field "list index out of range"
parsed_index name (some index) = ok (some (name, index))

abbrev index_at : Text → Text → Result Error (Option (Text × ℕ))
index_at name [] = invalid_field "list index cannot be empty"
index_at name (c ∷ s) =
    if not (all is_digit (c ∷ s))
    then invalid_field "list index must be numeric"
    else parsed_index name (atoi (c ∷ s))

abbrev split_index : Text → Option ℕ → Result Error (Option (Text × ℕ))
split_index field none = invalid_field "invalid list index syntax"
split_index field (some zero) = invalid_field "invalid list index syntax"
split_index field (some (suc i)) =
    if leb (length field - 1) (suc i)
    then invalid_field "invalid list index syntax"
    else index_at (take (suc i) field) (index_part field (suc i))

-- parseListIndexOperation: the field and the index of `field[index]`, or nothing.
unfoldable pub parse_list_index_operation : Text → Result Error (Option (Text × ℕ))
unfolding contains ends_with last_index_of atoi
parse_list_index_operation field =
    if contains field (codes "[") && ends_with (codes "]") field
    then split_index field (last_index_of b'[' field)
    else ok none

abbrev pub exprs_of : Text → Builder → List Text
exprs_of action b = elim (lookup action b.update_expressions) [ none ↦ [] | some exprs ↦ exprs ]

-- `b.updateExpressions[action] = append(b.updateExpressions[action], expr)`
unfoldable pub push_update : Text → Text → Action (Unit {0})
push_update action expr b = (
  record b {
    update_expressions = insert action (exprs_of action b ++ expr ∷ []) b.update_expressions;
  },
  ok tt,
)

abbrev valid_field : Text → Result Error (Unit {0})
valid_field field =
    map_err (λ e. wrapped "invalid field name" (invalid e)) (validate_field_name field)

abbrev list_index : Text → Result Error (Option (Text × ℕ))
list_index field = map_err (wrapped "invalid field name") (parse_list_index_operation field)

abbrev indexed : Text → ℕ → Text
indexed name_ref index = name_ref ++ (codes "[" ++ (format index ++ codes "]"))

unfoldable pub set_target : Text → Option (Text × ℕ) → Value → Action (Unit {0})
unfolding push_update
set_target field none value = do
  name_ref ← add_name field
  value_ref ← add_value_secure value
  push_update (codes "SET") (name_ref ++ (codes " = " ++ value_ref))
set_target field (some (name, index)) value = do
  name_ref ← add_name name
  value_ref ← add_value_secure value
  push_update (codes "SET") (indexed name_ref index ++ (codes " = " ++ value_ref))

unfoldable pub add_update_set : Text → Value → Action (Unit {0})
unfolding parse_list_index_operation set_target
add_update_set field value = do
  lift (valid_field field)
  target ← lift (list_index field)
  set_target field target value

unfoldable pub add_update_add : Text → Value → Action (Unit {0})
unfolding push_update
add_update_add field value = do
  lift (valid_field field)
  name_ref ← add_name field
  value_ref ← add_value_secure value
  push_update (codes "ADD") (name_ref ++ (codes " " ++ value_ref))

unfoldable pub remove_target : Text → Option (Text × ℕ) → Action (Unit {0})
unfolding push_update
remove_target field none = do name_ref ← add_name field; push_update (codes "REMOVE") name_ref
remove_target field (some (name, index)) = do
  name_ref ← add_name name
  push_update (codes "REMOVE") (indexed name_ref index)

unfoldable pub add_update_remove : Text → Action (Unit {0})
unfolding parse_list_index_operation remove_target
add_update_remove field = do
  lift (valid_field field)
  target ← lift (list_index field)
  remove_target field target

unfoldable pub add_update_delete : Text → Value → Action (Unit {0})
unfolding push_update
add_update_delete field value = do
  lift (valid_field field)
  name_ref ← add_name field
  value_ref ← add_value_as_set value
  push_update (codes "DELETE") (name_ref ++ (codes " " ++ value_ref))

-- `name = function(first, second)`
abbrev called : Text → Text → Text → Text → Text
called name_ref function first second =
    name_ref
    ++ (codes " = "
        ++ (function ++ (codes "(" ++ (first ++ (codes ", " ++ (second ++ codes ")"))))))

-- `arg == field`, between an `any` and a string
abbrev is_field : Value → Text → Bool
is_field (string_value s) field = text_eq s field
is_field _ field = false

unfoldable pub append_lists : Text → Text → Value → Value → Action (Unit {0})
unfolding push_update
append_lists field name_ref first second =
    if is_field first field
    then (do
      value_ref ← add_value_secure second
      push_update (codes "SET") (called name_ref (codes "list_append") name_ref value_ref))
    else if is_field second field
    then (do
      value_ref ← add_value_secure first
      push_update (codes "SET") (called name_ref (codes "list_append") value_ref name_ref))
    else (do
      first_ref ← add_value_secure first
      second_ref ← add_value_secure second
      push_update (codes "SET") (called name_ref (codes "list_append") first_ref second_ref))

unfoldable pub update_function : Text → Text → Text → List Value → Action (Unit {0})
unfolding append_lists
update_function field name_ref function (first ∷ second ∷ []) =
    if text_eq function (codes "list_append")
    then append_lists field name_ref first second
    else if text_eq function (codes "if_not_exists")
    then (do
      default_ref ← add_value_secure second
      push_update (codes "SET") (called name_ref (codes "if_not_exists") name_ref default_ref))
    else raise (message "unsupported update function")
update_function field name_ref function _ =
    if text_eq function (codes "list_append")
    then raise (message "list_append requires exactly 2 arguments")
    else if text_eq function (codes "if_not_exists")
    then raise (message "if_not_exists requires exactly 2 arguments")
    else raise (message "unsupported update function")

unfoldable pub add_update_function : Text → Text → List Value → Action (Unit {0})
unfolding update_function
add_update_function field function args = do
  name_ref ← add_name field
  update_function field name_ref function args

abbrev unary : Text → Text → Text
unary function name_ref = function ++ (codes "(" ++ (name_ref ++ codes ")"))

abbrev with_value : Text → String → Text → List Value → Action Text
with_value function complaint name_ref (arg ∷ []) = do
  value_ref ← add_value_secure arg
  pure (function ++ (codes "(" ++ (name_ref ++ (codes ", " ++ (value_ref ++ codes ")")))))
with_value function complaint name_ref _ = raise (message complaint)

unfoldable pub advanced_function : Text → Text → List Value → Action Text
advanced_function function name_ref args =
    if text_eq function (codes "size")
    then pure (unary (codes "size") name_ref)
    else if text_eq function (codes "attribute_type")
    then with_value (codes "attribute_type") "attribute_type requires one argument (type)" name_ref
        args
    else if text_eq function (codes "attribute_exists")
    then pure (unary (codes "attribute_exists") name_ref)
    else if text_eq function (codes "attribute_not_exists")
    then pure (unary (codes "attribute_not_exists") name_ref)
    else if text_eq function (codes "list_append")
    then with_value (codes "list_append") "list_append requires one argument (value to append)"
        name_ref args
    else raise (message "unsupported function")

unfoldable pub add_advanced_function : Text → Text → List Value → Action Text
unfolding advanced_function
add_advanced_function function field args = do
  name_ref ← add_name field
  advanced_function (to_lower function) name_ref args
