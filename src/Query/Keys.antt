-- ===== src/Query/Keys.antt =====
-- pkg/query/query.go: which conditions of a query are on the keys of the table or of an index, and
-- the index that the conditions choose.
use table_theory.Base.{
  Bool, false, ◌&&◌, ◌||◌, not, Option, none, some, List, [], ◌∷◌, map, Text, codes, text_eq,
  to_lower, to_upper, trim_space, if◌then◌else◌,
}
use table_theory.Index
use table_theory.Index.{IndexSchema, analyze_conditions, select_optimal}
use table_theory.Query.State.{
  Condition, ModelMetadata, AttributeMetadata, field_metadata, named_or, resolve_attribute_name,
  resolve_go_field_name,
}

-- strings.EqualFold on ASCII text
unfoldable pub equal_fold : Text → Text → Bool
unfolding text_eq to_lower
equal_fold s t = text_eq (to_lower s) (to_lower t)

-- A condition on the attribute's name, with the names of its field in Go and in the table.
pub record Normalized : Type 0 where
  pub condition : Condition
  pub go_field : Text
  pub attr_name : Text

abbrev normalized_by : Condition → Option AttributeMetadata → Normalized
normalized_by cond none = record { condition = cond; go_field = cond.field; attr_name = cond.field }
normalized_by cond (some meta) =
    let attr = named_or meta.name meta.dynamodb_name in
    record { condition = record cond { field = attr }; go_field = meta.name; attr_name = attr }

-- normalizeCondition
unfoldable pub normalize_condition : Option ModelMetadata → Condition → Normalized
normalize_condition metadata cond = normalized_by cond (field_metadata metadata cond.field)

abbrev pub Names : Type 0
Names = Text × Text

abbrev names_by : Text → Text → AttributeMetadata → Names
names_by go attr meta =
    let go' = named_or go meta.name in (go', named_or (named_or go' attr) meta.dynamodb_name)

abbrev names_by_attr : Text → Text → Option AttributeMetadata → Names
names_by_attr go attr none = (go, attr)
names_by_attr go attr (some meta) = (named_or go meta.name, named_or attr meta.dynamodb_name)

abbrev names_found : ModelMetadata → Text → Text → Option AttributeMetadata → Names
names_found m go attr (some meta) = names_by go attr meta
names_found m go attr none = names_by_attr go attr (m.attribute_metadata attr)

-- resolveConditionNames
unfoldable pub resolve_condition_names : ModelMetadata → Text → Text → Names
resolve_condition_names m go attr = names_found m go attr (m.attribute_metadata go)

-- struct keyNameSet
pub record KeyNameSet : Type 0 where
  pub pk_go : Text
  pub pk_attr : Text
  pub sk_go : Text
  pub sk_attr : Text

unfoldable pub is_partition_key : KeyNameSet → Names → Bool
unfolding equal_fold text_eq
is_partition_key k (go, attr) =
    not (text_eq k.pk_go []) && (equal_fold go k.pk_go || equal_fold attr k.pk_attr)

unfoldable pub is_sort_key : KeyNameSet → Names → Bool
unfolding equal_fold text_eq
is_sort_key k (go, attr) =
    not (text_eq k.sk_go []) && (equal_fold go k.sk_go || equal_fold attr k.sk_attr)

unfoldable pub is_key : KeyNameSet → Names → Bool
unfolding is_partition_key is_sort_key
is_key k names = is_partition_key k names || is_sort_key k names

abbrev primary_key_names : ModelMetadata → KeyNameSet
primary_key_names m = record {
  pk_go = resolve_go_field_name (some m) m.primary_key.partition_key;
  pk_attr = resolve_attribute_name (some m) m.primary_key.partition_key;
  sk_go = resolve_go_field_name (some m) m.primary_key.sort_key;
  sk_attr = resolve_attribute_name (some m) m.primary_key.sort_key;
}

-- Names that an index does not give are those of the table.
abbrev index_key_names : ModelMetadata → IndexSchema → KeyNameSet
index_key_names m idx =
    let primary = primary_key_names m in
    record {
      pk_go = named_or primary.pk_go (resolve_go_field_name (some m) idx.partition_key);
      pk_attr = named_or primary.pk_attr (resolve_attribute_name (some m) idx.partition_key);
      sk_go = named_or primary.sk_go (resolve_go_field_name (some m) idx.sort_key);
      sk_attr = named_or primary.sk_attr (resolve_attribute_name (some m) idx.sort_key);
    }

-- keyNamesForIndex
unfoldable pub key_names_for_index : ModelMetadata → Option IndexSchema → KeyNameSet
unfolding resolve_go_field_name resolve_attribute_name text_eq
key_names_for_index m none = primary_key_names m
key_names_for_index m (some idx) =
    if text_eq idx.name [] then primary_key_names m else index_key_names m idx

-- The names by which a condition is compared with the keys.
unfoldable pub condition_names : ModelMetadata → Condition → Names
unfolding normalize_condition resolve_condition_names
condition_names m cond =
    let n = normalize_condition (some m) cond in resolve_condition_names m n.go_field n.attr_name

unfoldable pub normalized : ModelMetadata → Condition → Condition
unfolding normalize_condition
normalized m cond = (normalize_condition (some m) cond).condition

abbrev pub Split : Type 0
Split = List Condition × List Condition

abbrev to_keys : Condition → Split → Split
to_keys cond (keys, filters) = (cond ∷ keys, filters)

abbrev to_filters : Condition → Split → Split
to_filters cond (keys, filters) = (keys, cond ∷ filters)

-- splitConditionsByKey
unfoldable pub split_conditions_by_key : ModelMetadata → KeyNameSet → List Condition → Split
unfolding is_key condition_names normalized
split_conditions_by_key m keys [] = ([], [])
split_conditions_by_key m keys (cond ∷ conditions) =
    let rest = split_conditions_by_key m keys conditions in
    if is_key keys (condition_names m cond)
    then to_keys (normalized m cond) rest
    else to_filters (normalized m cond) rest

-- The operators that DynamoDB takes for a sort key.
unfoldable pub is_sort_operator : Text → Bool
unfolding text_eq
is_sort_operator op =
    text_eq op (codes "=")
    || (text_eq op (codes "<")
        || (text_eq op (codes "<=")
            || (text_eq op (codes ">")
                || (text_eq op (codes ">=")
                    || (text_eq op (codes "BETWEEN") || text_eq op (codes "BEGINS_WITH"))))))

unfoldable pub upper_operator : Condition → Text
unfolding to_upper trim_space
upper_operator cond = to_upper (trim_space cond.operator)

-- partitionConditionsForKeys
unfoldable pub partition_conditions_for_keys : ModelMetadata → KeyNameSet → List Condition → Split
unfolding is_key is_partition_key condition_names normalized is_sort_operator upper_operator
partition_conditions_for_keys m keys [] = ([], [])
partition_conditions_for_keys m keys (cond ∷ conditions) =
    let rest = partition_conditions_for_keys m keys conditions in
    let names = condition_names m cond in
    let op = upper_operator cond in
    if not (is_key keys names)
    then to_filters (normalized m cond) rest
    else if is_partition_key keys names
    then (if text_eq op (codes "=")
        then to_keys (normalized m cond) rest
        else to_filters (normalized m cond) rest)
    else if is_sort_operator op
    then to_keys (normalized m cond) rest
    else to_filters (normalized m cond) rest

-- hasPartitionKeyCondition
unfoldable pub has_partition_key_condition : List Condition → Text → Bool
unfolding equal_fold
has_partition_key_condition [] pk = false
has_partition_key_condition (cond ∷ conditions) pk =
    equal_fold cond.field pk || has_partition_key_condition conditions pk

-- indexSchemaByName
unfoldable pub index_schema_by_name : Text → List IndexSchema → Option IndexSchema
unfolding text_eq
index_schema_by_name name [] = none
index_schema_by_name name (idx ∷ indexes) =
    let rest = index_schema_by_name name indexes in if text_eq idx.name name then some idx else rest

abbrev pub primary_index : ModelMetadata → IndexSchema
primary_index m = record {
  name = [];
  partition_key = m.primary_key.partition_key;
  sort_key = m.primary_key.sort_key;
  index_type = codes "PRIMARY";
  projection_type = [];
}

-- A condition by the Go name of its field, the name that the indexes are given by.
unfoldable pub index_condition : ModelMetadata → Condition → Index.Condition
unfolding normalize_condition
index_condition m cond =
    let n = normalize_condition (some m) cond in
    record {
      field = named_or (named_or n.condition.field n.attr_name) n.go_field;
      operator = n.condition.operator;
    }

-- selectBestIndex
unfoldable pub select_best_index : ModelMetadata → List Condition → Option IndexSchema
unfolding index_condition analyze_conditions select_optimal
select_best_index m conditions =
    select_optimal (primary_index m ∷ m.indexes)
      (analyze_conditions (map (index_condition m) conditions))
