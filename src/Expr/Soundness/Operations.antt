-- ===== src/Expr/Soundness/Operations.antt =====
-- Every method of the builder but AddGroupFilter keeps the invariant (internal/expr/builder.go).
use table_theory.Base.{ℕ, ◌++◌, refl, Option, none, some, List, [], ◌∷◌, Text, Result, ok, err}
use table_theory.Validation.Value.{Value}
use table_theory.Expr.{Builder, AttributeValue, Error, continue}
use table_theory.Expr.Names.{add_name, add_name_secure, bind_value}
use table_theory.Expr.Filters.{
  push_key_condition, push_filter, push_condition, add_key_condition, add_filter_condition,
  add_projection, reset_conditions, add_condition_expression_with_op,
}
use table_theory.Expr.Sets.{convert_to_set_attribute_value, add_value_as_set}
use table_theory.Expr.Updates.{
  set_target, add_update_set, add_update_add, remove_target, add_update_remove, add_update_delete,
  append_lists, update_function, add_update_function,
}
use table_theory.Expr.Placeholders.{IsFresh, Extends, Extends-refl, bind_value-Extends}
use table_theory.Expr.Placeholders.Actions.{
  OnlyAdds, add_name-OnlyAdds, add_value_secure-OnlyAdds, build_condition-OnlyAdds,
}
use table_theory.Expr.Soundness.{
  IsSound, Follows, Follows-refl, Follows-trans, Keeps-OnlyAdds, Keeps, keeps_rules,
  push_update-Keeps, with_operator_linked,
}

push_key_condition-Keeps : (expr : Text) → Keeps (push_key_condition expr)
push_key_condition-Keeps expr = record {
  at = λ b h. record {
    sound = record {
      fresh = h.fresh;
      filters_linked = h.filters_linked;
      conditions_linked = h.conditions_linked;
    };
    values_kept = λ p v e. e;
  };
}

push_filter-Keeps : (op expr : Text) → Keeps (push_filter op expr)
push_filter-Keeps op expr = record {
  at = λ b h. record {
    sound = record {
      fresh = h.fresh;
      filters_linked =
          with_operator_linked b.filter_conditions expr op b.filter_operators h.filters_linked;
      conditions_linked = h.conditions_linked;
    };
    values_kept = λ p v e. e;
  };
}

push_condition-Keeps : (op expr : Text) → Keeps (push_condition op expr)
push_condition-Keeps op expr = record {
  at = λ b h. record {
    sound = record {
      fresh = h.fresh;
      filters_linked = h.filters_linked;
      conditions_linked =
          with_operator_linked b.conditions expr op b.condition_operators h.conditions_linked;
    };
    values_kept = λ p v e. e;
  };
}

add_value_as_set-OnlyAdds : (value : Value) → OnlyAdds (add_value_as_set value)
unfolding add_value_as_set
add_value_as_set-OnlyAdds value = record {
  at = λ b h. go (convert_to_set_attribute_value value) b h;
}
  where
    go :
        (r : Result Error AttributeValue) (b : Builder)
        → IsFresh b
        → Extends b (continue b r bind_value).0
    go (ok av) b h = bind_value-Extends av b h
    go (err e) b h = Extends-refl b h

ruleset steps = (
  keeps_rules, add_name-OnlyAdds, add_value_secure-OnlyAdds, add_value_as_set-OnlyAdds,
  build_condition-OnlyAdds, push_update-Keeps, push_key_condition-Keeps, push_filter-Keeps,
  push_condition-Keeps,
)

pub add_key_condition-Keeps :
    (field op : Text) (value : Value) → Keeps (add_key_condition field op value)
unfolding add_key_condition
add_key_condition-Keeps field op value = search steps

pub add_filter_condition-Keeps :
    (logical_op field op : Text) (value : Value)
    → Keeps (add_filter_condition logical_op field op value)
unfolding add_filter_condition
add_filter_condition-Keeps logical_op field op value = search steps

pub add_condition_expression_with_op-Keeps :
    (logical_op field op : Text) (value : Value)
    → Keeps (add_condition_expression_with_op logical_op field op value)
unfolding add_condition_expression_with_op
add_condition_expression_with_op-Keeps logical_op field op value = search steps

set_target-Keeps :
    (field : Text) (target : Option (Text × ℕ)) (value : Value)
    → Keeps (set_target field target value)
unfolding set_target
set_target-Keeps field none value = search steps depth 8
set_target-Keeps field (some (name, index)) value = search steps depth 8

pub add_update_set-Keeps : (field : Text) (value : Value) → Keeps (add_update_set field value)
unfolding add_update_set
add_update_set-Keeps field value = search (steps, set_target-Keeps)

pub add_update_add-Keeps : (field : Text) (value : Value) → Keeps (add_update_add field value)
unfolding add_update_add
add_update_add-Keeps field value = search steps depth 8

remove_target-Keeps :
    (field : Text) (target : Option (Text × ℕ)) → Keeps (remove_target field target)
unfolding remove_target
remove_target-Keeps field none = search steps
remove_target-Keeps field (some (name, index)) = search steps

pub add_update_remove-Keeps : (field : Text) → Keeps (add_update_remove field)
unfolding add_update_remove
add_update_remove-Keeps field = search (steps, remove_target-Keeps)

pub add_update_delete-Keeps : (field : Text) (value : Value) → Keeps (add_update_delete field value)
unfolding add_update_delete
add_update_delete-Keeps field value = search steps depth 8

append_lists-Keeps :
    (field name_ref : Text) (first second : Value)
    → Keeps (append_lists field name_ref first second)
unfolding append_lists
append_lists-Keeps field name_ref first second = search steps depth 8

update_function-Keeps :
    (field name_ref function : Text) (args : List Value)
    → Keeps (update_function field name_ref function args)
unfolding update_function
update_function-Keeps field name_ref function (first ∷ second ∷ []) =
    search (steps, append_lists-Keeps) depth 8
update_function-Keeps field name_ref function _ = search steps depth 8

pub add_update_function-Keeps :
    (field function : Text) (args : List Value) → Keeps (add_update_function field function args)
unfolding add_update_function
add_update_function-Keeps field function args = search (steps, update_function-Keeps)

push_projection-Follows :
    {b : Builder} (name_ref : Text)
    → IsSound b
    → Follows b (record b { projections = b.projections ++ name_ref ∷ [] })
push_projection-Follows name_ref h = record {
  sound = record {
    fresh = h.fresh;
    filters_linked = h.filters_linked;
    conditions_linked = h.conditions_linked;
  };
  values_kept = λ p v e. e;
}

pub add_projection-Follows :
    (fields : List Text) (b : Builder) → IsSound b → Follows b (add_projection fields b)
unfolding add_projection
add_projection-Follows [] b h = Follows-refl h
add_projection-Follows (field ∷ fields) b h =
    let named = (Keeps-OnlyAdds (add_name field) (add_name-OnlyAdds field)).at b h in
    let name_ref = (add_name_secure field b).1 in
    Follows-trans named (
      Follows-trans (push_projection-Follows name_ref named.sound)
        (add_projection-Follows fields _ (push_projection-Follows name_ref named.sound).sound))

pub reset_conditions-Follows : (b : Builder) → IsSound b → Follows b (reset_conditions b)
unfolding reset_conditions
reset_conditions-Follows b h = record {
  sound = record { fresh = h.fresh; filters_linked = h.filters_linked; conditions_linked = refl };
  values_kept = λ p v e. e;
}
