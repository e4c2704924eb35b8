-- ===== src/Query/Write.antt =====
-- pkg/query/query.go: the condition expression of a write.
pub mod Merge
pub mod Returns
use mathlib.Core.Option
use table_theory.Base.{
  Bool, true, false, ◌&&◌, ◌||◌, not, Option, none, some, List, [], ◌∷◌, ◌++◌, Text, codes, text_eq,
  Assoc, lookup, insert, Result, ok, err, ◌>>=◌, ◌>>◌, map_err, if◌then◌else◌,
}
use table_theory.Validation.Value.{Value, nil_value}
use table_theory.Expr
use table_theory.Expr.{Builder, AttributeValue, ConverterLookup}
use table_theory.Expr.Filters.{add_condition_expression}
use table_theory.Expr.Components.{ExpressionComponents, build}
use table_theory.Query.State.{
  Query, Condition, ConditionExpression, ModelMetadata, KeySchema, Error,
  reject_encrypted_condition_field, resolve_attribute_name, query_builder, metadata_required,
  partition_key_required, empty_field, in_condition, duplicate_placeholder,
}
use table_theory.Query.Keys.{equal_fold, normalize_condition, Normalized}
use table_theory.Query.PrimaryKey.{to_attribute_value}

-- A step on the builder, which keeps what was written before an error.
abbrev pub Step : Type 0 → Type 0
Step A = Builder → Builder × Result Error A

abbrev pub after :
    {A B : Type 0} → Builder × Result Error A → (A → Step B) → Builder × Result Error B
after (b, ok a) next = next a b
after (b, err e) next = (b, err e)

abbrev pub rejected_or : {A : Type 0} → Option Error → Step A → Step A
rejected_or (some e) step b = (b, err e)
rejected_or none step b = step b

-- AddConditionExpression, with the field's name around its error
unfoldable pub condition_step : Condition → Step (Unit {0})
unfolding add_condition_expression
condition_step cond b =
    let (b', r) = add_condition_expression cond.field cond.operator cond.value b in
    (b', map_err (in_condition cond.field) r)

-- Whether a list of conditions added one: addWriteConditions
unfoldable pub add_write_conditions : Option ModelMetadata → List Condition → Bool → Step Bool
unfolding reject_encrypted_condition_field condition_step text_eq
add_write_conditions metadata [] has b = (b, ok has)
add_write_conditions metadata (cond ∷ conditions) has b =
    let checked =
      rejected_or (reject_encrypted_condition_field metadata cond.field)
        (λ b'. after (condition_step cond b') λ _. add_write_conditions metadata conditions true)
        b in
    if text_eq cond.field [] then (b, err empty_field) else checked

-- isKeyField
unfoldable pub is_key_field : Option ModelMetadata → KeySchema → Normalized → Bool
unfolding equal_fold text_eq resolve_attribute_name
is_key_field metadata schema n =
    (not (text_eq schema.partition_key [])
      && (equal_fold n.go_field schema.partition_key
          || equal_fold n.attr_name (resolve_attribute_name metadata schema.partition_key)))
    || (not (text_eq schema.sort_key [])
        && (equal_fold n.go_field schema.sort_key
            || equal_fold n.attr_name (resolve_attribute_name metadata schema.sort_key)))

-- The loop of addWhereConditions
unfoldable pub where_conditions : ModelMetadata → Bool → List Condition → Bool → Step Bool
unfolding reject_encrypted_condition_field condition_step is_key_field normalize_condition
where_conditions m skip_keys [] has b = (b, ok has)
where_conditions m skip_keys (cond ∷ conditions) has b =
    let n = normalize_condition (some m) cond in
    let skipped = where_conditions m skip_keys conditions has in
    let added = λ (b' : Builder).
      after (condition_step n.condition b') λ _. where_conditions m skip_keys conditions true in
    rejected_or (reject_encrypted_condition_field (some m) cond.field)
      (if skip_keys && is_key_field (some m) m.primary_key n then skipped else added) b

abbrev pub needs_metadata : {A : Type 0} → Option ModelMetadata → (ModelMetadata → Step A) → Step A
needs_metadata none step b = (b, err metadata_required)
needs_metadata (some m) step b = step m b

-- addWhereConditions
unfoldable pub add_where_conditions : Query → Bool → Step Bool
unfolding where_conditions
add_where_conditions q skip_keys =
    needs_metadata q.metadata λ m. where_conditions m skip_keys q.conditions false

abbrev pub default_condition : ModelMetadata → Step (Unit {0})
default_condition m b =
    if text_eq m.primary_key.partition_key []
    then (b, err partition_key_required)
    else condition_step
        (record {
          field = resolve_attribute_name (some m) m.primary_key.partition_key;
          operator = codes "attribute_not_exists";
          value = nil_value;
        })
        b

-- addDefaultCondition
unfoldable pub add_default_condition : Query → Step (Unit {0})
unfolding condition_step resolve_attribute_name text_eq
add_default_condition q = needs_metadata q.metadata default_condition

abbrev pub unused : Text → Option AttributeValue → Result Error (Unit {0})
unused key none = ok tt
unused key (some taken) = err (duplicate_placeholder key)

-- The raw values, none of which may have a placeholder that is taken.
unfoldable pub merge_values :
    Option ConverterLookup
    → Assoc Value
    → Assoc AttributeValue
    → Result Error (Assoc AttributeValue)
unfolding lookup insert to_attribute_value
merge_values converter [] merged = ok merged
merge_values converter ((key, value) ∷ values) merged = do
  unused key (lookup key merged)
  av ← map_err (in_condition key) (to_attribute_value converter value)
  merge_values converter values (insert key av merged)

abbrev pub no_raw : List ConditionExpression → Bool
no_raw [] = true
no_raw (raw ∷ raws) = false

abbrev pub joined : Text → Text → Text
joined [] raw = raw
joined (c ∷ s) raw = codes "(" ++ ((c ∷ s) ++ (codes ") AND (" ++ (raw ++ codes ")")))

-- mergeConditionExpressions; an empty raw expression is passed over.
unfoldable pub merge_condition_expressions :
    Option ConverterLookup
    → List ConditionExpression
    → Text
    → Assoc AttributeValue
    → Result Error (Text × Assoc AttributeValue)
unfolding merge_values text_eq
merge_condition_expressions converter [] expr values = ok (expr, values)
merge_condition_expressions converter (raw ∷ raws) expr values =
    let skipped = merge_condition_expressions converter raws expr values in
    let merged = merge_values converter raw.values values >>= λ values'.
    merge_condition_expressions converter raws (joined expr raw.expression) values' in
    if text_eq raw.expression [] then skipped else merged

-- The default is for a query with no condition of any kind.
abbrev pub or_default : Query → Bool → Bool → Step (Unit {0})
or_default q default_if_empty has b =
    if default_if_empty && (not has && no_raw q.raw_condition_expressions)
    then add_default_condition q b
    else (b, ok tt)

abbrev pub optional_where : Query → Bool → Bool → Step Bool
optional_where q include_where skip_keys b =
    if include_where then add_where_conditions q skip_keys b else (b, ok false)

-- The conditions of a query on a builder.
unfoldable pub add_conditions : Query → Bool → Bool → Bool → Step (Unit {0})
unfolding add_write_conditions add_where_conditions add_default_condition
add_conditions q include_where skip_keys default_if_empty b =
    after (add_write_conditions q.metadata q.write_conditions false b) λ has b'.
      after (optional_where q include_where skip_keys b')
        λ added. or_default q default_if_empty (has || added)

pub record WriteCondition : Type 0 where
  pub condition_expression : Text
  pub names : Assoc Text
  pub values : Assoc AttributeValue

unfoldable pub merged_components : Query → ExpressionComponents → Result Error WriteCondition
unfolding merge_condition_expressions
merged_components q components = do
  (expr, values) ←
      merge_condition_expressions q.converter q.raw_condition_expressions
        components.condition_expression components.expression_attribute_values
  ok (record {
    condition_expression = expr;
    names = components.expression_attribute_names;
    values = values;
  })

abbrev pub built :
    Query → Builder × Result Error (Unit {0}) → Builder × Option (Result Error WriteCondition)
built q (b, err e) = (b, some (err e))
built q (b, ok _) = (b, Option.map (merged_components q) (build b))

-- buildConditionExpression on the given builder; `none` is a panic of Build.
unfoldable pub build_condition_expression :
    Query → Bool → Bool → Bool → Builder → Builder × Option (Result Error WriteCondition)
unfolding add_conditions merged_components build
build_condition_expression q include_where skip_keys default_if_empty b =
    built q (add_conditions q include_where skip_keys default_if_empty b)
