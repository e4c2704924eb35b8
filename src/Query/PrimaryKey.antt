-- ===== src/Query/PrimaryKey.antt =====
-- pkg/query/query.go: the primary key of the item that a query names, for GetItem and for writes.
pub mod Found
pub mod GetItem
use mathlib.Core.Option
use table_theory.Base.{
  Bool, true, ◌&&◌, ◌||◌, not, Option, none, some, List, [], ◌∷◌, Text, codes, text_eq, trim_space,
  Assoc, insert, Result, ok, err, ◌>>=◌, map_err, if◌then◌else◌,
}
use table_theory.Validation.Value.{Value}
use table_theory.Expr
use table_theory.Expr.{AttributeValue, Builder, ConverterLookup}
use table_theory.Expr.Convert.{convert_to_attribute_value}
use table_theory.Expr.Filters.{add_projection}
use table_theory.Expr.Components.{ExpressionComponents, build}
use table_theory.Query.State.{
  Query, Condition, ModelMetadata, Model, Error, resolve_attribute_name, query_builder,
  metadata_required, partition_key_required, key_operator, missing_key, expression,
}
use table_theory.Query.Keys.{equal_fold, normalize_condition}
use table_theory.Query.Compile.{CompiledQuery}

-- The names that resolvePrimaryKeyNames and getItemKeyNames return; no sort key is an empty name.
pub record KeyNames : Type 0 where
  pub pk_go : Text
  pub pk_attr : Text
  pub sk_go : Text
  pub sk_attr : Text

-- resolvePrimaryKeyNames and getItemKeyNames, of metadata that are not nil
unfoldable pub resolve_primary_key_names : ModelMetadata → Result Error KeyNames
unfolding resolve_attribute_name text_eq
resolve_primary_key_names m =
    if text_eq m.primary_key.partition_key []
    then err partition_key_required
    else ok (record {
      pk_go = m.primary_key.partition_key;
      pk_attr = resolve_attribute_name (some m) m.primary_key.partition_key;
      sk_go = m.primary_key.sort_key;
      sk_attr = resolve_attribute_name (some m) m.primary_key.sort_key;
    })

-- The values of the two keys, where they are found.
abbrev pub KeyValues : Type 0
KeyValues = Option Value × Option Value

unfoldable pub names_partition_key : ModelMetadata → KeyNames → Condition → Bool
unfolding normalize_condition equal_fold
names_partition_key m k cond =
    let n = normalize_condition (some m) cond in
    equal_fold n.go_field k.pk_go || equal_fold n.attr_name k.pk_attr

unfoldable pub names_sort_key : ModelMetadata → KeyNames → Condition → Bool
unfolding normalize_condition equal_fold text_eq
names_sort_key m k cond =
    let n = normalize_condition (some m) cond in
    not (text_eq k.sk_go []) && (equal_fold n.go_field k.sk_go || equal_fold n.attr_name k.sk_attr)

unfoldable pub is_equal_operator : Condition → Bool
unfolding text_eq trim_space
is_equal_operator cond = text_eq (trim_space cond.operator) (codes "=")

-- extractPrimaryKeyValuesFromConditions: its loop, with the values found so far
unfoldable pub extract_primary_key_values :
    ModelMetadata → KeyNames → List Condition → KeyValues → Result Error KeyValues
unfolding names_partition_key names_sort_key is_equal_operator
extract_primary_key_values m k [] found = ok found
extract_primary_key_values m k (cond ∷ conditions) (pk, sk) =
    let with_pk = extract_primary_key_values m k conditions (some cond.value, sk) in
    let with_sk = extract_primary_key_values m k conditions (pk, some cond.value) in
    let passing = extract_primary_key_values m k conditions (pk, sk) in
    if names_partition_key m k cond
    then (if is_equal_operator cond then with_pk else err key_operator)
    else if names_sort_key m k cond
    then (if is_equal_operator cond then with_sk else err key_operator)
    else passing

-- extractGetItemKeyValuesFromConditions: its loop; `none` is a condition that GetItem cannot serve.
unfoldable pub extract_get_item_key_values :
    ModelMetadata → KeyNames → List Condition → KeyValues → Option KeyValues
unfolding names_partition_key names_sort_key is_equal_operator
extract_get_item_key_values m k [] found = some found
extract_get_item_key_values m k (cond ∷ conditions) (pk, sk) =
    let with_pk = extract_get_item_key_values m k conditions (some cond.value, sk) in
    let with_sk = extract_get_item_key_values m k conditions (pk, some cond.value) in
    if names_partition_key m k cond
    then (if is_equal_operator cond then with_pk else none)
    else if names_sort_key m k cond
    then (if is_equal_operator cond then with_sk else none)
    else none

abbrev pub or_found : Option Value → Option Value → Option Value
or_found (some v) other = some v
or_found none other = other

abbrev sort_value_from : Model → Text → Option Value → Option Value
sort_value_from model [] sk = sk
sort_value_from model (c ∷ sk_go) sk =
    or_found (or_found sk model.raw_sort_key) (model.field_by_name (c ∷ sk_go))

-- fillKeyValuesFromModel, fillKeyValuesFromRawMetadata and fillKeyValuesByName
unfoldable pub fill_key_values_from_model : Option Model → KeyNames → KeyValues → KeyValues
fill_key_values_from_model none k found = found
fill_key_values_from_model (some model) k (pk, sk) = (
  or_found (or_found pk model.raw_partition_key) (model.field_by_name k.pk_go),
  sort_value_from model k.sk_go sk,
)

-- toAttributeValue
unfoldable pub to_attribute_value :
    Option ConverterLookup → Value → Result Expr.Error AttributeValue
unfolding convert_to_attribute_value
to_attribute_value (some converter) value = converter.to_attribute_value value
to_attribute_value none value = convert_to_attribute_value value

-- A found key's values: the sort key's only where the schema has one.
abbrev pub complete_key : Text → KeyNames → KeyValues → Result Error (Value × Option Value)
complete_key operation k (none, sk) = err (missing_key operation k.pk_go)
complete_key operation k (some pk, none) =
    if text_eq k.sk_go [] then ok (pk, none) else err (missing_key operation k.sk_go)
complete_key operation k (some pk, some sk) =
    if text_eq k.sk_go [] then ok (pk, none) else ok (pk, some sk)

-- validatePrimaryKeyValues
unfoldable pub validate_primary_key_values :
    Text → KeyNames → KeyValues → Result Error (Value × Option Value)
unfolding text_eq
validate_primary_key_values operation k found = complete_key operation k found

-- buildPrimaryKeyAttributeValues
unfoldable pub build_primary_key_attribute_values :
    Option ConverterLookup → KeyNames → Value → Option Value → Result Error (Assoc AttributeValue)
unfolding to_attribute_value insert
build_primary_key_attribute_values converter k pk none = do
  pk_av ← map_err expression (to_attribute_value converter pk)
  ok ((k.pk_attr, pk_av) ∷ [])
build_primary_key_attribute_values converter k pk (some sk) = do
  pk_av ← map_err expression (to_attribute_value converter pk)
  sk_av ← map_err expression (to_attribute_value converter sk)
  ok (insert k.sk_attr sk_av ((k.pk_attr, pk_av) ∷ []))

abbrev pub key_map_of : Text → Query → Option ModelMetadata → Result Error (Assoc AttributeValue)
key_map_of operation q none = err metadata_required
key_map_of operation q (some m) = do
  k ← resolve_primary_key_names m
  found ← extract_primary_key_values m k q.conditions (none, none)
  (pk, sk) ← validate_primary_key_values operation k (fill_key_values_from_model q.model k found)
  build_primary_key_attribute_values q.converter k pk sk

-- buildPrimaryKeyMap
unfoldable pub build_primary_key_map : Text → Query → Result Error (Assoc AttributeValue)
unfolding resolve_primary_key_names extract_primary_key_values fill_key_values_from_model
    validate_primary_key_values build_primary_key_attribute_values
build_primary_key_map operation q = key_map_of operation q q.metadata

-- What GetItem reads by: `none` where the query has to be a Query or a Scan.
abbrev pub read_key :
    Query
    → KeyNames
    → Result Error (Value × Option Value)
    → Result Error (Option (Assoc AttributeValue))
read_key q k (err e) = ok none
read_key q k (ok (pk, sk)) = do
  key ← build_primary_key_attribute_values q.converter k pk sk
  ok (some key)

abbrev pub get_item_key :
    Query → KeyNames → Option KeyValues → Result Error (Option (Assoc AttributeValue))
get_item_key q k none = ok none
get_item_key q k (some found) =
    read_key q k (complete_key [] k (fill_key_values_from_model q.model k found))

unfoldable pub get_item_settings : ModelMetadata → Query → ExpressionComponents → CompiledQuery
get_item_settings m q components = record {
  table_name = m.table_name;
  operation = codes "GetItem";
  index_name = [];
  key_condition_expression = [];
  filter_expression = [];
  projection_expression = components.projection_expression;
  expression_attribute_names = components.expression_attribute_names;
  expression_attribute_values = [];
  limit = none;
  scan_index_forward = none;
  exclusive_start_key = [];
  consistent_read = if q.consistent_read then some true else none;
  offset = none;
  segment = none;
  total_segments = none;
}

abbrev pub GetItem : Type 0
GetItem = Option (CompiledQuery × Assoc AttributeValue)

unfoldable pub get_item_values :
    ModelMetadata → Query → Result Error (Option (Assoc AttributeValue))
unfolding resolve_primary_key_names extract_get_item_key_values fill_key_values_from_model
    build_primary_key_attribute_values text_eq
get_item_values m q = do
  k ← resolve_primary_key_names m
  get_item_key q k (extract_get_item_key_values m k q.conditions (none, none))

abbrev pub with_projection :
    ModelMetadata
    → Query
    → Result Error (Option (Assoc AttributeValue))
    → Option (Result Error GetItem)
with_projection m q (err e) = some (err e)
with_projection m q (ok none) = some (ok none)
with_projection m q (ok (some key)) =
    Option.map (λ components. ok (some (get_item_settings m q components, key)))
      (build (add_projection q.projection (query_builder q)))

-- Filters cannot be applied by GetItem.
abbrev pub without_filters :
    Option Builder → Option (Result Error GetItem) → Option (Result Error GetItem)
without_filters (some b) compiled = some (ok none)
without_filters none compiled = compiled

-- compileGetItem of metadata that are not nil; `none` is a panic of Build.
unfoldable pub compile_get_item : ModelMetadata → Query → Option (Result Error GetItem)
unfolding get_item_values text_eq get_item_settings build add_projection query_builder
compile_get_item m q =
    let compiled = with_projection m q (get_item_values m q) in
    if not (text_eq q.index []) then some (ok none) else without_filters q.builder compiled
