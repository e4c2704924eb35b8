-- ===== src/Expr/Components.antt =====
-- Build and ExpressionComponents (internal/expr/builder.go): the texts that go to DynamoDB.
use mathlib.Core.Option
use table_theory.Base.{Option, none, some, List, [], ◌∷◌, ◌++◌, Text, codes, join, Assoc}
use table_theory.Expr.{Builder, AttributeValue}

pub record ExpressionComponents : Type 0 where
  pub expression_attribute_names : Assoc Text
  pub expression_attribute_values : Assoc AttributeValue
  pub key_condition_expression : Text
  pub filter_expression : Text
  pub projection_expression : Text
  pub update_expression : Text
  pub condition_expression : Text

abbrev pub linked : Text → Text → Text → Text
linked op condition rest = codes " " ++ (op ++ (codes " " ++ (condition ++ rest)))

-- The loop over the filter conditions after the first; `none` is the panic of an index out of range.
unfoldable pub filter_tail : List Text → List Text → Option Text
filter_tail [] ops = some []
filter_tail (condition ∷ rest) [] = none
filter_tail (condition ∷ rest) (op ∷ ops) = Option.map (linked op condition) (filter_tail rest ops)

unfoldable pub build_filter : List Text → List Text → Option Text
unfolding filter_tail
build_filter [] ops = some []
build_filter (condition ∷ rest) ops = Option.map (λ tail. condition ++ tail) (filter_tail rest ops)

-- The same loop over the write conditions, which falls back to AND.
unfoldable pub condition_tail : List Text → List Text → Text
condition_tail [] ops = []
condition_tail (condition ∷ rest) [] = linked (codes "AND") condition (condition_tail rest [])
condition_tail (condition ∷ rest) (op ∷ ops) = linked op condition (condition_tail rest ops)

unfoldable pub build_conditions : List Text → List Text → Text
unfolding condition_tail
build_conditions [] ops = []
build_conditions (condition ∷ rest) ops = condition ++ condition_tail rest ops

-- One clause for each action that has expressions. A Go map is walked in the order of insertion here.
unfoldable pub update_clauses : Assoc (List Text) → List Text
update_clauses [] = []
update_clauses ((action, []) ∷ rest) = update_clauses rest
update_clauses ((action, expr ∷ exprs) ∷ rest) =
    (action ++ (codes " " ++ join (codes ", ") (expr ∷ exprs))) ∷ update_clauses rest

-- The components with the text of the filter expression given.
unfoldable pub components_of : Builder → Text → ExpressionComponents
unfolding build_conditions update_clauses join
components_of b filter = record {
  expression_attribute_names = b.names;
  expression_attribute_values = b.values;
  key_condition_expression = join (codes " AND ") b.key_conditions;
  filter_expression = filter;
  projection_expression = join (codes ", ") b.projections;
  update_expression = join (codes " ") (update_clauses b.update_expressions);
  condition_expression = build_conditions b.conditions b.condition_operators;
}

unfoldable pub build : Builder → Option ExpressionComponents
unfolding build_filter components_of
build b = Option.map (components_of b) (build_filter b.filter_conditions b.filter_operators)
