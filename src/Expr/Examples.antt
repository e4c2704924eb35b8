-- ===== src/Expr/Examples.antt =====
-- Runs of the builder, and the theorems about it at concrete inputs.
use table_theory.Base.{
  ◌≡◌, ◌≢◌, refl, Option, none, some, List, [], ◌∷◌, Text, codes, lookup, contains, arith,
  text_eq_iff, ok, false, to_upper,
}
use table_theory.Base.Int.{pos}
use table_theory.Validation.Value.{int_value, any_slice, more, none_left}
use table_theory.Validation.Field.{validate_field_name}
use table_theory.Expr.{Builder, number_attr, new_builder_with_converter}
use table_theory.Expr.Reserved.{is_reserved_word}
use table_theory.Expr.Names.{counted_name, counted_value, add_name_secure, add_value_secure}
use table_theory.Expr.Conditions.{validate_inputs, build_condition}
use table_theory.Expr.Components.{ExpressionComponents, build}
use table_theory.Expr.Placeholders.Actions.{build_condition-Extends}
use table_theory.Expr.Placeholders.Resolve.{lookup-add_name_secure, add_name_secure-same_capitals}
use table_theory.Expr.Placeholders.{Extends, IsFresh-new_builder}
use table_theory.Expr.Soundness.{IsSound, IsSound-new_builder}
use table_theory.Expr.Soundness.Runs.{
  Call, filter, update_set, perform, run, run-IsSound, lookup-values-run,
}
use table_theory.Expr.Groups.{
  over, equality, add_filter_group, lookup-names-add_filter_group, add_filter_group-captures,
}

abbrev empty : Builder
empty = new_builder_with_converter none

abbrev calls : List Call
calls =
    filter (codes "AND") (codes "age") (codes ">=") (int_value (pos 18))
    ∷ filter (codes "OR") (codes "status") (codes "IN")
        (any_slice (more (int_value (pos 1)) (more (int_value (pos 2)) none_left)))
    ∷ update_set (codes "tags[3]") (int_value (pos 7))
    ∷ []

texts : Option ExpressionComponents → Text × Text
texts none = ([], [])
texts (some c) = (c.filter_expression, c.update_expression)

builds_texts :
    texts (build (run calls empty))
    ≡ (codes "#n1 >= :v1 OR #STATUS IN (:v2, :v3)", codes "SET #n3[3] = :v4")
unfolding texts run build add_value_secure new_builder_with_converter lookup
builds_texts = refl

run-IsSound_example : IsSound (run calls empty)
run-IsSound_example = run-IsSound calls empty (IsSound-new_builder none)

abbrev filtered : Builder
filtered = perform (equality (codes "age") (int_value (pos 18))) empty

filtered-IsSound : IsSound filtered
unfolding perform run
filtered-IsSound =
    run-IsSound (equality (codes "age") (int_value (pos 18)) ∷ []) empty (IsSound-new_builder none)

value_bound : lookup (counted_value 1) filtered.values ≡ some (number_attr (codes "18"))
unfolding perform lookup add_value_secure new_builder_with_converter
value_bound = refl

lookup-values-run_example :
    lookup (counted_value 1) (run calls filtered).values ≡ some (number_attr (codes "18"))
lookup-values-run_example =
    lookup-values-run calls filtered (counted_value 1) (number_attr (codes "18")) filtered-IsSound
      value_bound

build_condition-Extends_example :
    Extends empty (build_condition (codes "age") (codes "=") (int_value (pos 18)) empty).0
build_condition-Extends_example =
    build_condition-Extends (codes "age") (codes "=") (int_value (pos 18)) empty
      (IsFresh-new_builder none)

valid_age : validate_field_name (codes "age") ≡ ok tt
unfolding validate_field_name
valid_age = refl

whole_age : contains (codes "age") (codes ".") ≡ false
unfolding contains
whole_age = refl

lookup-add_name_secure_example :
    lookup (add_name_secure (codes "age") empty).1 (add_name_secure (codes "age") empty).0.names
    ≡ some (codes "age")
lookup-add_name_secure_example =
    lookup-add_name_secure (codes "age") empty (IsFresh-new_builder none) valid_age whole_age

spellings_differ : codes "name" ≢ codes "Name"
spellings_differ e = ground (arith, text_eq_iff (codes "name") (codes "Name"))

add_name_secure-same_capitals_example :
    let (b, p) = add_name_secure (codes "name") (new_builder_with_converter none) in
    lookup p (add_name_secure (codes "Name") b).0.names ≡ some (codes "Name")
unfolding validate_field_name contains is_reserved_word to_upper
add_name_secure-same_capitals_example =
    add_name_secure-same_capitals (codes "name") (codes "Name") none refl refl refl refl refl refl
      spellings_differ

abbrev age_group : List Call
age_group = equality (codes "city") (int_value (pos 3)) ∷ []

grouped : Builder
unfolding add_filter_group perform
grouped = elim (add_filter_group (codes "OR") age_group filtered) [ none ↦ empty | some c ↦ c ]

grouped_lem : add_filter_group (codes "OR") age_group filtered ≡ some grouped
unfolding grouped build run add_value_secure new_builder_with_converter
grouped_lem = refl

lookup-names-add_filter_group_example :
    lookup (counted_name 1) grouped.names
    ≡ over
        (lookup (counted_name 1) (run age_group empty).names)
        (lookup (counted_name 1) filtered.names)
unfolding perform new_builder_with_converter add_value_secure
lookup-names-add_filter_group_example =
    lookup-names-add_filter_group (codes "OR") age_group filtered grouped (counted_name 1)
      grouped_lem

add_filter_group-captures_example :
    (lookup (counted_name 1) filtered.names ≡ some (codes "age"))
    × (lookup (counted_name 1) grouped.names ≡ some (codes "city"))
unfolding validate_inputs contains is_reserved_word
add_filter_group-captures_example =
    add_filter_group-captures (codes "OR") (codes "age") (codes "city") (int_value (pos 18))
      (int_value (pos 3)) none grouped refl refl refl refl refl refl grouped_lem
