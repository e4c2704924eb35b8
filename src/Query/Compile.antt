-- ===== src/Query/Compile.antt =====
-- pkg/query/query.go: Compile and compileScan. A nil metadata makes them panic, and so would filter
-- connectives that do not fit the filters: `none`.
use mathlib.Core.Option
use table_theory.Base.{
  ◌^◌, ◌-◌, Bool, true, false, ◌&&◌, Option, none, some, List, [], ◌∷◌, map, Text, codes, text_eq,
  Assoc, Result, ok, err, if◌then◌else◌, ltb,
}
use table_theory.Base.Int.{ℤ, pos, negsuc}
use table_theory.Expr
use table_theory.Expr.{Builder, Action, AttributeValue, ◌>>=◌, ◌>>◌, pure}
use table_theory.Expr.Filters.{add_key_condition, add_filter_condition, add_projection, clone}
use table_theory.Expr.Components.{ExpressionComponents, build}
use table_theory.Index.{IndexSchema}
use table_theory.Query.State.{Query, Condition, ModelMetadata, query_builder}
use table_theory.Query.Keys.{
  equal_fold, Split, key_names_for_index, split_conditions_by_key, partition_conditions_for_keys,
  has_partition_key_condition, index_schema_by_name, select_best_index, normalized,
}

-- struct core.CompiledQuery, the part that a read uses
pub record CompiledQuery : Type 0 where
  pub table_name : Text
  pub operation : Text
  pub index_name : Text
  pub key_condition_expression : Text
  pub filter_expression : Text
  pub projection_expression : Text
  pub expression_attribute_names : Assoc Text
  pub expression_attribute_values : Assoc AttributeValue
  pub limit : Option ℤ
  pub scan_index_forward : Option Bool
  pub exclusive_start_key : Assoc AttributeValue
  pub consistent_read : Option Bool
  pub offset : Option ℤ
  pub segment : Option ℤ
  pub total_segments : Option ℤ

-- The outcome of compileOperation: what it sets, and the conditions that it then adds, in order.
pub record Plan : Type 0 where
  pub operation : Text
  pub index_name : Text
  pub key_conditions : List Condition
  pub filter_conditions : List Condition

abbrev query_plan : Text → Split → Plan
query_plan name (keys, filters) = record {
  operation = codes "Query";
  index_name = name;
  key_conditions = keys;
  filter_conditions = filters;
}

-- applyScanConditions: every condition is a filter.
abbrev scan_plan : ModelMetadata → Text → List Condition → Plan
scan_plan m name conditions = record {
  operation = codes "Scan";
  index_name = name;
  key_conditions = [];
  filter_conditions = map (normalized m) conditions;
}

-- compileWithExplicitIndex
unfoldable pub compile_with_explicit_index : ModelMetadata → Query → Plan
unfolding key_names_for_index index_schema_by_name partition_conditions_for_keys normalized
    has_partition_key_condition
compile_with_explicit_index m q =
    let keys = key_names_for_index m (index_schema_by_name q.index m.indexes) in
    let split = partition_conditions_for_keys m keys q.conditions in
    if has_partition_key_condition split.0 keys.pk_attr
    then query_plan q.index split
    else scan_plan m q.index q.conditions

abbrev pub plan_for : ModelMetadata → List Condition → Option IndexSchema → Plan
plan_for m conditions none = scan_plan m [] conditions
plan_for m conditions (some idx) =
    query_plan idx.name (split_conditions_by_key m (key_names_for_index m (some idx)) conditions)

-- compileWithBestIndex, with applyQueryConditions
unfoldable pub compile_with_best_index : ModelMetadata → Query → Plan
unfolding select_best_index key_names_for_index split_conditions_by_key normalized
compile_with_best_index m q = plan_for m q.conditions (select_best_index m q.conditions)

-- compileOperation
unfoldable pub compile_operation : ModelMetadata → Query → Plan
unfolding compile_with_explicit_index compile_with_best_index text_eq
compile_operation m q =
    if text_eq q.index [] then compile_with_best_index m q else compile_with_explicit_index m q

unfoldable pub add_key_conditions : List Condition → Action (Unit {0})
unfolding add_key_condition
add_key_conditions [] = pure tt
add_key_conditions (cond ∷ conditions) = do
  add_key_condition cond.field cond.operator cond.value
  add_key_conditions conditions

unfoldable pub add_filter_conditions : List Condition → Action (Unit {0})
unfolding add_filter_condition
add_filter_conditions [] = pure tt
add_filter_conditions (cond ∷ conditions) = do
  add_filter_condition (codes "AND") cond.field cond.operator cond.value
  add_filter_conditions conditions

-- applyKeyAndFilterConditions
unfoldable pub apply_conditions : Plan → Action (Unit {0})
unfolding add_key_conditions add_filter_conditions
apply_conditions plan = do
  add_key_conditions plan.key_conditions
  add_filter_conditions plan.filter_conditions

abbrev pub builder_for : Query → Option Builder → Builder
builder_for q (some b) = clone (some b)
builder_for q none = query_builder q

-- effectiveBuilder
unfoldable pub effective_builder : Query → Builder
unfolding clone query_builder
effective_builder q = builder_for q q.builder

-- numutil.ClampIntToInt32
unfoldable pub clamp_int_to_int32 : ℤ → ℤ
clamp_int_to_int32 (pos n) = if ltb (2 ^ 31 - 1) n then pos (2 ^ 31 - 1) else pos n
clamp_int_to_int32 (negsuc n) = if ltb (2 ^ 31 - 1) n then negsuc (2 ^ 31 - 1) else negsuc n

abbrev pub compiled_limit : ℤ → Option ℤ
compiled_limit (pos n) = if ltb 0 n then some (clamp_int_to_int32 (pos n)) else none
compiled_limit (negsuc n) = none

-- What a positive offset is compiled to.
abbrev positive : Option ℤ → Option ℤ
positive (some (pos n)) = if ltb 0 n then some (pos n) else none
positive (some (negsuc n)) = none
positive none = none

-- applyExpressionComponents and applyCompiledSettings
unfoldable pub apply_settings : ModelMetadata → Query → Plan → ExpressionComponents → CompiledQuery
unfolding equal_fold text_eq clamp_int_to_int32
apply_settings m q plan components = record {
  table_name = m.table_name;
  operation = plan.operation;
  index_name = plan.index_name;
  key_condition_expression = components.key_condition_expression;
  filter_expression = components.filter_expression;
  projection_expression = components.projection_expression;
  expression_attribute_names = components.expression_attribute_names;
  expression_attribute_values = components.expression_attribute_values;
  limit = compiled_limit q.limit;
  scan_index_forward = if equal_fold q.order_by.order (codes "desc") then some false else none;
  exclusive_start_key = q.exclusive;
  consistent_read = if q.consistent_read && text_eq plan.index_name [] then some true else none;
  offset = none;
  segment = none;
  total_segments = none;
}

abbrev pub Compiled : Type 0
Compiled = Option (Result Expr.Error CompiledQuery)

-- The projection and the expressions, after the conditions.
abbrev pub finished :
    (ExpressionComponents → CompiledQuery)
    → List Text
    → Builder × Result Expr.Error (Unit {0})
    → Compiled
finished settings projection (b, err e) = some (err e)
finished settings projection (b, ok _) =
    Option.map (λ components. ok (settings components)) (build (add_projection projection b))

unfoldable pub compile_with : ModelMetadata → Query → Compiled
unfolding compile_operation apply_conditions effective_builder apply_settings build add_projection
compile_with m q =
    let plan = compile_operation m q in
    finished (apply_settings m q plan) q.projection (apply_conditions plan (effective_builder q))

-- A nil metadata is dereferenced.
abbrev pub with_metadata :
    (ModelMetadata → Query → Compiled) → Option ModelMetadata → Query → Compiled
with_metadata read none q = none
with_metadata read (some m) q = read m q

-- Compile
unfoldable pub compile : Query → Compiled
unfolding compile_with
compile q = with_metadata compile_with q.metadata q

abbrev segments : Option ℤ → Option ℤ → Option ℤ × Option ℤ
segments (some s) (some t) = (some s, some t)
segments (some s) none = (none, none)
segments none t = (none, none)

unfoldable pub scan_settings : ModelMetadata → Query → ExpressionComponents → CompiledQuery
unfolding text_eq clamp_int_to_int32
scan_settings m q components =
    let parts = segments q.segment q.total_segments in
    record {
      table_name = m.table_name;
      operation = codes "Scan";
      index_name = q.index;
      key_condition_expression = [];
      filter_expression = components.filter_expression;
      projection_expression = components.projection_expression;
      expression_attribute_names = components.expression_attribute_names;
      expression_attribute_values = components.expression_attribute_values;
      limit = compiled_limit q.limit;
      scan_index_forward = none;
      exclusive_start_key = q.exclusive;
      consistent_read = if q.consistent_read && text_eq q.index [] then some true else none;
      offset = positive q.offset;
      segment = parts.0;
      total_segments = parts.1;
    }

unfoldable pub compile_scan_with : ModelMetadata → Query → Compiled
unfolding normalized add_filter_conditions effective_builder scan_settings build add_projection
compile_scan_with m q =
    finished (scan_settings m q) q.projection
      (add_filter_conditions (map (normalized m) q.conditions) (effective_builder q))

-- compileScan
unfoldable pub compile_scan : Query → Compiled
unfolding compile_scan_with
compile_scan q = with_metadata compile_scan_with q.metadata q
