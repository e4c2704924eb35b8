-- ===== src/Batch/Keys.antt =====
-- pkg/query/batch_get.go: the keys that a batch get is asked for, in the forms that it takes.
use table_theory.Base.{
  ℕ, suc, Option, some, List, [], ◌∷◌, Text, text_eq, Assoc, insert, Result, ok, err, ◌>>=◌,
  map_err, if◌then◌else◌,
}
use table_theory.Validation.Value.{Value, nil_value}
use table_theory.Expr
use table_theory.Expr.{AttributeValue, ConverterLookup}
use table_theory.Query.State
use table_theory.Query.State.{ModelMetadata, resolve_attribute_name}
use table_theory.Query.PrimaryKey.{to_attribute_value}

-- The errors of a batch get.
pub data Error : Type 0 where
  recorded : State.Error → Error
  metadata_required no_keys unsupported : Error
  invalid_key : ℕ → Error → Error
  nil_key empty_key missing_partition_key : Error
  missing_value : Text → Error
  composite_key : Text → Text → Error
  conversion : Expr.Error → Error
  failed : Text → Error

-- A key, which may be of any type: nil or a nil pointer, core.KeyPair, a map of attributes, a map of
-- values, a struct with the attributes that extractKeyAttributeValues finds in it, or a plain value.
pub data Key : Type 0 where
  no_key : Key
  key_pair : Value → Value → Key
  attribute_key : Assoc AttributeValue → Key
  value_key : Assoc Value → Key
  struct_key : Result Error (Assoc AttributeValue) → Key
  plain_key : Value → Key

-- struct batchKeySpec
pub record BatchKeySpec : Type 0 where
  pub attrs : Assoc AttributeValue
  pub original : Key
  pub index : ℕ

abbrev required : Text → Value → Result Error Value
required name nil_value = err (missing_value name)
required name value = ok value

module _ (m : ModelMetadata) (converter : Option ConverterLookup) where
  abbrev converted : Value → Result Error AttributeValue
  converted value = map_err conversion (to_attribute_value converter value)

  abbrev resolved : Text → Text
  resolved = resolve_attribute_name (some m)

  abbrev with_sort_key : Text → Value → Assoc AttributeValue → Result Error (Assoc AttributeValue)
  with_sort_key [] value attrs = ok attrs
  with_sort_key (c ∷ name) value attrs = do
    sk ← required (c ∷ name) value >>= converted
    ok (insert (resolved (c ∷ name)) sk attrs)

  -- keyPairToAttributes
  unfoldable pub key_pair_to_attributes : Value → Value → Result Error (Assoc AttributeValue)
  unfolding text_eq to_attribute_value resolve_attribute_name insert
  key_pair_to_attributes partition sort =
      let schema = m.primary_key in
      if text_eq schema.partition_key [] then err missing_partition_key else do
        pk ← required schema.partition_key partition >>= converted
        with_sort_key schema.sort_key sort ((resolved schema.partition_key, pk) ∷ [])

  -- partitionOnlyKey
  unfoldable pub partition_only_key : Value → Result Error (Assoc AttributeValue)
  unfolding text_eq to_attribute_value resolve_attribute_name
  partition_only_key value =
      let schema = m.primary_key in
      if text_eq schema.partition_key []
      then err missing_partition_key
      else if text_eq schema.sort_key []
      then (do av ← converted value; ok ((resolved schema.partition_key, av) ∷ []))
      else err (composite_key schema.partition_key schema.sort_key)

  abbrev remapped : Assoc AttributeValue → Assoc AttributeValue → Assoc AttributeValue
  remapped done [] = done
  remapped done ((field, v) ∷ key) = remapped (insert (resolved field) v done) key

  -- remapKeyAttributes
  unfoldable pub remap_key_attributes : Assoc AttributeValue → Assoc AttributeValue
  unfolding resolve_attribute_name insert
  remap_key_attributes key = remapped [] key

  abbrev converted_all : Assoc Value → Result Error (Assoc AttributeValue)
  converted_all [] = ok []
  converted_all ((attr, value) ∷ rest) = do
    av ← converted value
    avs ← converted_all rest
    ok ((attr, av) ∷ avs)

  -- buildBatchGetKey
  unfoldable pub build_batch_get_key : Key → Result Error (Assoc AttributeValue)
  unfolding key_pair_to_attributes partition_only_key remap_key_attributes to_attribute_value
  build_batch_get_key no_key = err nil_key
  build_batch_get_key (key_pair partition sort) = key_pair_to_attributes partition sort
  build_batch_get_key (attribute_key []) = err empty_key
  build_batch_get_key (attribute_key (kv ∷ key)) = ok (remap_key_attributes (kv ∷ key))
  build_batch_get_key (value_key []) = err empty_key
  build_batch_get_key (value_key (kv ∷ key)) = do
    avs ← converted_all (kv ∷ key)
    ok (remap_key_attributes avs)
  build_batch_get_key (struct_key found) = do avs ← found; ok (remap_key_attributes avs)
  build_batch_get_key (plain_key nil_value) = err nil_key
  build_batch_get_key (plain_key value) = partition_only_key value

  -- convertBatchGetKeys, from an index on
  unfoldable pub convert_batch_get_keys : ℕ → List Key → Result Error (List BatchKeySpec)
  unfolding build_batch_get_key
  convert_batch_get_keys i [] = ok []
  convert_batch_get_keys i (key ∷ keys) = do
    attrs ← map_err (invalid_key i) (build_batch_get_key key)
    specs ← convert_batch_get_keys (suc i) keys
    ok (record { attrs = attrs; original = key; index = i } ∷ specs)
