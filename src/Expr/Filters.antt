-- ===== src/Expr/Filters.antt =====
-- The builder's methods that add conditions, filters, groups and projections
-- (internal/expr/builder.go).
use table_theory.Base.{
  Option, none, some, List, [], ◌∷◌, ◌++◌, Text, codes, insert, Assoc, length, ltb, if◌then◌else◌,
  ok,
}
use table_theory.Validation.Value.{Value}
use table_theory.Expr.{Builder, Action, new_builder, ◌>>=◌}
use table_theory.Expr.Names.{add_name_secure}
use table_theory.Expr.Conditions.{build_condition}
use table_theory.Expr.Components.{ExpressionComponents}

-- The connective of a list's new last element: none for the first element.
abbrev pub with_operator : List Text → Text → List Text → List Text
with_operator conditions op operators =
    if ltb 1 (length conditions) then operators ++ op ∷ [] else operators

abbrev pub push_key_condition : Text → Action (Unit {0})
push_key_condition expr b = (record b { key_conditions = b.key_conditions ++ expr ∷ [] }, ok tt)

abbrev pub push_filter : Text → Text → Action (Unit {0})
push_filter logical_op expr b =
    let filters = b.filter_conditions ++ expr ∷ [] in
    (
      record b {
        filter_conditions = filters;
        filter_operators = with_operator filters logical_op b.filter_operators;
      },
      ok tt,
    )

abbrev pub push_condition : Text → Text → Action (Unit {0})
push_condition logical_op expr b =
    let conditions = b.conditions ++ expr ∷ [] in
    (
      record b {
        conditions = conditions;
        condition_operators = with_operator conditions logical_op b.condition_operators;
      },
      ok tt,
    )

unfoldable pub add_key_condition : Text → Text → Value → Action (Unit {0})
unfolding build_condition
add_key_condition field operator value = do
  expr ← build_condition field operator value
  push_key_condition expr

unfoldable pub add_filter_condition : Text → Text → Text → Value → Action (Unit {0})
unfolding build_condition
add_filter_condition logical_op field operator value = do
  expr ← build_condition field operator value
  push_filter logical_op expr

unfoldable pub add_condition_expression_with_op : Text → Text → Text → Value → Action (Unit {0})
unfolding build_condition
add_condition_expression_with_op logical_op field operator value = do
  expr ← build_condition field operator value
  push_condition logical_op expr

unfoldable pub add_condition_expression : Text → Text → Value → Action (Unit {0})
unfolding add_condition_expression_with_op
add_condition_expression = add_condition_expression_with_op (codes "AND")

unfoldable pub insert_all : {V : Type 0} → Assoc V → Assoc V → Assoc V
insert_all [] target = target
insert_all ((key, value) ∷ rest) target = insert_all rest (insert key value target)

abbrev pub push_group : Text → Text → Builder → Builder
push_group logical_op [] b = b
push_group logical_op (c ∷ expr) b =
    (push_filter logical_op (codes "(" ++ ((c ∷ expr) ++ codes ")")) b).0

-- The group's names and values are written over those of the builder.
unfoldable pub add_group_filter : Text → ExpressionComponents → Builder → Builder
unfolding insert_all
add_group_filter logical_op components b =
    push_group logical_op components.filter_expression (record b {
      names = insert_all components.expression_attribute_names b.names;
      values = insert_all components.expression_attribute_values b.values;
    })

unfoldable pub add_projection : List Text → Builder → Builder
unfolding add_name_secure
add_projection [] b = b
add_projection (field ∷ fields) b =
    let (b', name_ref) = add_name_secure field b in
    add_projection fields (record b' { projections = b'.projections ++ name_ref ∷ [] })

unfoldable pub reset_conditions : Builder → Builder
reset_conditions b = record b { conditions = []; condition_operators = [] }

-- Clone, field by field; the clone of a nil builder is a new one.
unfoldable pub clone : Option Builder → Builder
unfolding new_builder
clone none = new_builder
clone (some b) = record new_builder {
  converter = b.converter;
  update_expressions = b.update_expressions;
  names = b.names;
  values = b.values;
  key_conditions = b.key_conditions;
  filter_conditions = b.filter_conditions;
  conditions = b.conditions;
  projections = b.projections;
  filter_operators = b.filter_operators;
  condition_operators = b.condition_operators;
  name_counter = b.name_counter;
  value_counter = b.value_counter;
}
