-- ===== src/Query/State.antt =====
-- pkg/query/query.go: the state of a query and the methods that chain on it. An interface that may be
-- nil is an `Option`; the context and the marshaler, which only pass on to other packages, are left
-- out, and so are the fields `filters` and `rawFilters`, which nothing sets.
use table_theory.Base.{
  Bool, false, ◌&&◌, not, Option, none, some, List, [], ◌∷◌, ◌++◌, map, Text, codes, text_eq, Assoc,
  lookup, Result, ok, err, trim_space, if◌then◌else◌,
}
use table_theory.Base.Int.{ℤ}
use table_theory.Validation.Value.{Value, nil_value}
use table_theory.Expr
use table_theory.Query.Cursor
use table_theory.Expr.{Builder, ConverterLookup, AttributeValue, new_builder_with_converter}
use table_theory.Expr.Filters.{add_filter_condition}
use table_theory.Index.{IndexSchema}

-- struct core.KeySchema
pub record KeySchema : Type 0 where
  pub partition_key : Text
  pub sort_key : Text

-- struct core.AttributeMetadata, less the Go type
pub record AttributeMetadata : Type 0 where
  pub tags : Assoc Text
  pub name : Text
  pub dynamodb_name : Text

-- interface core.ModelMetadata
pub record ModelMetadata : Type 0 where
  pub table_name : Text
  pub primary_key : KeySchema
  pub indexes : List IndexSchema
  pub attribute_metadata : Text → Option AttributeMetadata

-- What reflection finds in a model that is a struct or a pointer to one: the values, other than zero
-- ones, of the fields that the raw metadata names as the key, and of a field by its name.
pub record Model : Type 0 where
  pub raw_partition_key : Option Value
  pub raw_sort_key : Option Value
  pub field_by_name : Text → Option Value

-- struct Condition
pub record Condition : Type 0 where
  pub field : Text
  pub operator : Text
  pub value : Value

-- struct conditionExpression
pub record ConditionExpression : Type 0 where
  pub expression : Text
  pub values : Assoc Value

-- struct OrderBy
pub record OrderBy : Type 0 where
  pub field : Text
  pub order : Text

-- struct RetryConfig; the delay is in nanoseconds.
pub record RetryConfig : Type 0 where
  pub max_retries : ℤ
  pub initial_delay : ℤ

-- The errors of the package. One that wraps another carries it.
pub data Error : Type 0 where
  encrypted_field_not_queryable : Text → Error
  metadata_required partition_key_required empty_expression empty_field : Error
  key_operator : Error
  missing_key : Text → Text → Error
  duplicate_placeholder : Text → Error
  expression : Expr.Error → Error
  in_condition : Text → Expr.Error → Error
  item_not_found : Error
  executor_failed : Text → Error
  invalid_cursor : Cursor.Error → Error

-- struct Query
pub record Query : Type 0 where
  pub builder_err : Option Error
  pub metadata : Option ModelMetadata
  pub converter : Option ConverterLookup
  pub model : Option Model
  pub exclusive : Assoc AttributeValue
  pub retry_config : Option RetryConfig
  pub total_segments : Option ℤ
  pub segment : Option ℤ
  pub builder : Option Builder
  pub offset : Option ℤ
  pub order_by : OrderBy
  pub index : Text
  pub projection : List Text
  pub raw_condition_expressions : List ConditionExpression
  pub write_conditions : List Condition
  pub conditions : List Condition
  pub limit : ℤ
  pub consistent_read : Bool

-- New
unfoldable pub new_query : Option Model → Option ModelMetadata → Query
new_query model metadata = record {
  builder_err = none;
  metadata = metadata;
  converter = none;
  model = model;
  exclusive = [];
  retry_config = none;
  total_segments = none;
  segment = none;
  builder = none;
  offset = none;
  order_by = record { field = []; order = [] };
  index = [];
  projection = [];
  raw_condition_expressions = [];
  write_conditions = [];
  conditions = [];
  limit = ℤ.pos 0;
  consistent_read = false;
}

-- The metadata of a field, none without the metadata of the model.
abbrev pub field_metadata : Option ModelMetadata → Text → Option AttributeMetadata
field_metadata none field = none
field_metadata (some m) field = m.attribute_metadata field

-- The first error stays.
abbrev pub first_error : Option Error → Error → Option Error
first_error none e = some e
first_error (some first) e = some first

-- recordBuilderError
unfoldable pub record_builder_error : Error → Query → Query
record_builder_error e q = record q { builder_err = first_error q.builder_err e }

-- A change of the query, in place of which an error is recorded.
abbrev pub unless_rejected : Option Error → (Query → Query) → Query → Query
unless_rejected (some e) change q = record_builder_error e q
unless_rejected none change q = change q

abbrev pub named_or : Text → Text → Text
named_or name [] = name
named_or name (c ∷ s) = c ∷ s

abbrev encrypted_name : Text → AttributeMetadata → Option Error
encrypted_name field meta = elim (lookup (codes "encrypted") meta.tags) [
  | none ↦ none
  | some tag ↦ some (encrypted_field_not_queryable (named_or field meta.name))
]

abbrev encrypted_in : Text → Option AttributeMetadata → Option Error
encrypted_in field none = none
encrypted_in field (some meta) = encrypted_name field meta

-- rejectEncryptedConditionField
unfoldable pub reject_encrypted_condition_field : Option ModelMetadata → Text → Option Error
unfolding lookup
reject_encrypted_condition_field metadata [] = none
reject_encrypted_condition_field metadata (c ∷ field) =
    encrypted_in (c ∷ field) (field_metadata metadata (c ∷ field))

abbrev attribute_name : Text → Option AttributeMetadata → Text
attribute_name field none = field
attribute_name field (some meta) = named_or (named_or field meta.name) meta.dynamodb_name

-- resolveAttributeName
unfoldable pub resolve_attribute_name : Option ModelMetadata → Text → Text
resolve_attribute_name metadata [] = []
resolve_attribute_name metadata (c ∷ field) =
    attribute_name (c ∷ field) (field_metadata metadata (c ∷ field))

abbrev go_name : Text → Option AttributeMetadata → Text
go_name field none = field
go_name field (some meta) = named_or field meta.name

-- resolveGoFieldName
unfoldable pub resolve_go_field_name : Option ModelMetadata → Text → Text
resolve_go_field_name metadata [] = []
resolve_go_field_name metadata (c ∷ field) =
    go_name (c ∷ field) (field_metadata metadata (c ∷ field))

-- newBuilder
unfoldable pub query_builder : Query → Builder
unfolding new_builder_with_converter
query_builder q = new_builder_with_converter q.converter

abbrev pub append_condition : Condition → Query → Query
append_condition cond q = record q { conditions = q.conditions ++ cond ∷ [] }

abbrev pub append_write_condition : Condition → Query → Query
append_write_condition cond q = record q { write_conditions = q.write_conditions ++ cond ∷ [] }

-- Where
unfoldable pub query_where : Text → Text → Value → Query → Query
unfolding reject_encrypted_condition_field record_builder_error
query_where field op value q =
    unless_rejected (reject_encrypted_condition_field q.metadata field)
      (append_condition (record { field = field; operator = op; value = value })) q

abbrev pub builder_of : Query → Option Builder → Builder
builder_of q none = query_builder q
builder_of q (some b) = b

-- The builder of a failed call keeps what was written before the error.
abbrev pub with_result : Query → Builder × Result Expr.Error (Unit {0}) → Query
with_result q (b, ok _) = record q { builder = some b }
with_result q (b, err e) = record_builder_error (expression e) (record q { builder = some b })

abbrev pub append_filter : Text → Text → Text → Value → Query → Query
append_filter logical_op field op value q = with_result q (
    add_filter_condition logical_op (resolve_attribute_name q.metadata field) op value
      (builder_of q q.builder))

unfoldable pub filter_with : Text → Text → Text → Value → Query → Query
unfolding reject_encrypted_condition_field record_builder_error query_builder resolve_attribute_name
    add_filter_condition
filter_with logical_op field op value q =
    unless_rejected (reject_encrypted_condition_field q.metadata field)
      (append_filter logical_op field op value) q

-- Filter
unfoldable pub filter : Text → Text → Value → Query → Query
unfolding filter_with
filter = filter_with (codes "AND")

-- OrFilter
unfoldable pub or_filter : Text → Text → Value → Query → Query
unfolding filter_with
or_filter = filter_with (codes "OR")

-- Select
unfoldable pub select : List Text → Query → Query
unfolding resolve_attribute_name
select fields q = record q { projection = map (resolve_attribute_name q.metadata) fields }

-- WithCondition
unfoldable pub with_condition : Text → Text → Value → Query → Query
unfolding reject_encrypted_condition_field record_builder_error resolve_attribute_name
with_condition field operator value q =
    unless_rejected (reject_encrypted_condition_field q.metadata field)
      (append_write_condition (record {
        field = resolve_attribute_name q.metadata field;
        operator = operator;
        value = value;
      }))
      q

abbrev pub raw_condition : Text → Assoc Value → Query → Query
raw_condition [] values q = record_builder_error empty_expression q
raw_condition (c ∷ s) values q = record q {
  raw_condition_expressions =
      q.raw_condition_expressions ++ record { expression = c ∷ s; values = values } ∷ [];
}

-- WithConditionExpression
unfoldable pub with_condition_expression : Text → Assoc Value → Query → Query
unfolding record_builder_error trim_space
with_condition_expression expr values q = raw_condition (trim_space expr) values q

abbrev key_condition : Option ModelMetadata → Text → Text → Condition
key_condition metadata operator key = record {
  field = resolve_attribute_name metadata key;
  operator = operator;
  value = nil_value;
}

-- attribute_exists of the sort key ensures that a whole item is there.
abbrev key_conditions : Option ModelMetadata → Text → KeySchema → List Condition
key_conditions metadata operator key =
    key_condition metadata operator key.partition_key
    ∷ (if not (text_eq key.sort_key []) && text_eq operator (codes "attribute_exists")
        then key_condition metadata operator key.sort_key ∷ []
        else [])

abbrev pub with_primary_key : Text → Option ModelMetadata → Query → Query
with_primary_key operator none q = record_builder_error metadata_required q
with_primary_key operator (some m) q =
    if text_eq m.primary_key.partition_key []
    then record_builder_error partition_key_required q
    else record q {
      write_conditions = q.write_conditions ++ key_conditions (some m) operator m.primary_key;
    }

-- addPrimaryKeyCondition
unfoldable pub add_primary_key_condition : Text → Query → Query
unfolding record_builder_error resolve_attribute_name text_eq
add_primary_key_condition operator q = with_primary_key operator q.metadata q
