-- ===== src/Query/PrimaryKey/GetItem.antt =====
-- pkg/query/query.go: when a query is read by GetItem, and by which key.

use table_theory.Base.{
  map-some, Option, none, some, [], Text, text_eq, text_eq_iff, Assoc, Result, ok, err, >>=-eq-ok,
  arith, ◌≡◌, refl, sym, ap, subst, All, inl, inr, Bool-cases,
}
use table_theory.Validation.Value.{Value}
use table_theory.Expr.{AttributeValue, Builder}
use table_theory.Query.State.{Query, ModelMetadata, Error}
use table_theory.Query.Compile.{CompiledQuery}
use table_theory.Query.PrimaryKey.{
  KeyNames, KeyValues, GetItem, resolve_primary_key_names, extract_get_item_key_values,
  extract_primary_key_values, fill_key_values_from_model, complete_key, validate_primary_key_values,
  build_primary_key_attribute_values, build_primary_key_map, get_item_key, get_item_values,
  with_projection, read_key, key_map_of, without_filters, compile_get_item,
}
use table_theory.Query.PrimaryKey.Found.{IsKeyEquality, extract_primary_key-get_item}

complete_key-ok :
    (o p : Text) (k : KeyNames) (found : KeyValues) (v : Value × Option Value)
    → complete_key o k found ≡ ok v
    → complete_key p k found ≡ ok v
complete_key-ok o p k (none, sk) v e = cc
complete_key-ok o p k (some pk, none) v e = ground (arith)
complete_key-ok o p k (some pk, some sk) v e = e

with_projection-key :
    (m : ModelMetadata) (q : Query) (r : Result Error (Option (Assoc AttributeValue)))
    (c : CompiledQuery) (key : Assoc AttributeValue)
    → with_projection m q r ≡ some (ok (some (c, key)))
    → r ≡ ok (some key)
with_projection-key m q (err e) c key h = cc
with_projection-key m q (ok none) c key h = cc
with_projection-key m q (ok (some found)) c key h =
    let (components, e) = map-some _ _ _ h in
    let same : found ≡ key = cc in ap (λ x. ok (some x)) same

without_filters-some :
    (b : Option Builder) (compiled : Option (Result Error GetItem))
    (item : CompiledQuery × Assoc AttributeValue)
    → without_filters b compiled ≡ some (ok (some item))
    → (b ≡ none) × (compiled ≡ some (ok (some item)))
without_filters-some (some b) compiled item e = cc
without_filters-some none compiled item e = (refl, e)

read_key-some :
    (q : Query) (k : KeyNames) (r : Result Error (Value × Option Value))
    (key : Assoc AttributeValue)
    → read_key q k r ≡ ok (some key)
    → (v : Value × Option Value) × (r ≡ ok v)
      × (build_primary_key_attribute_values q.converter k v.0 v.1 ≡ ok key)
read_key-some q k (err e) key h = cc
read_key-some q k (ok v) key h =
    let (built, e, same) =
      >>=-eq-ok (build_primary_key_attribute_values q.converter k v.0 v.1) _ h in
    (v, refl, cc)

-- With the names resolved and the conditions taken.
key_map-found :
    (m : ModelMetadata) (q : Query) (operation : Text) (k : KeyNames) (found : KeyValues)
    (v : Value × Option Value) (key : Assoc AttributeValue)
    → resolve_primary_key_names m ≡ ok k
    → extract_primary_key_values m k q.conditions (none, none) ≡ ok found
    → complete_key operation k (fill_key_values_from_model q.model k found) ≡ ok v
    → build_primary_key_attribute_values q.converter k v.0 v.1 ≡ ok key
    → key_map_of operation q (some m) ≡ ok key
unfolding validate_primary_key_values
key_map-found m q operation k found v key names taken complete built =
    rw (names, taken, complete) built

get_item_key-some :
    (q : Query) (k : KeyNames) (taken : Option KeyValues) (key : Assoc AttributeValue)
    → get_item_key q k taken ≡ ok (some key)
    → (found : KeyValues) × (v : Value × Option Value) × (taken ≡ some found)
      × (complete_key [] k (fill_key_values_from_model q.model k found) ≡ ok v)
      × (build_primary_key_attribute_values q.converter k v.0 v.1 ≡ ok key)
get_item_key-some q k none key h = cc
get_item_key-some q k (some found) key h =
    let (v, complete, built) = read_key-some q k _ key h in (found, v, refl, complete, built)

get_item_values-key :
    (m : ModelMetadata) (q : Query) (operation : Text) (key : Assoc AttributeValue)
    → get_item_values m q ≡ ok (some key)
    → (key_map_of operation q (some m) ≡ ok key)
      × ((k : KeyNames) × (resolve_primary_key_names m ≡ ok k)
          × All (IsKeyEquality m k) q.conditions)
unfolding get_item_values
get_item_values-key m q operation key h =
    let (k, names, read) = >>=-eq-ok (resolve_primary_key_names m) _ h in
    let (found, v, taken, complete, built) =
      get_item_key-some q k (extract_get_item_key_values m k q.conditions (none, none)) key read in
    let (same, equalities) = extract_primary_key-get_item m k q.conditions found taken in
    (
      key_map-found m q operation k found v key names same
          (complete_key-ok [] operation k (fill_key_values_from_model q.model k found) v complete)
          built,
      (k, names, equalities),
    )

-- A query that is read by GetItem has no index and no filters, each of its conditions is an equality
-- on a key of the table, and the key that is read is the one by which an update or a delete of the
-- same query writes.
pub compile_get_item-key :
    (m : ModelMetadata) (q : Query) (c : CompiledQuery) (key : Assoc AttributeValue)
    (operation : Text)
    → q.metadata ≡ some m
    → compile_get_item m q ≡ some (ok (some (c, key)))
    → (q.index ≡ [])
      × (q.builder ≡ none)
      × ((k : KeyNames) × (resolve_primary_key_names m ≡ ok k)
          × All (IsKeyEquality m k) q.conditions)
      × (build_primary_key_map operation q ≡ ok key)
unfolding compile_get_item build_primary_key_map
compile_get_item-key m q c key operation known h = elim (Bool-cases (text_eq q.index [])) [
  | inr indexed ↦ cc (rw indexed at h)
  | inl table ↦
      let (bare, compiled) = without_filters-some q.builder _ (c, key) (rw table at h) in
      let (built, names) =
        get_item_values-key m q operation key
          (with_projection-key m q (get_item_values m q) c key compiled) in
      (
        (text_eq_iff q.index []).0 table,
        bare,
        names,
        subst (λ k. key_map_of operation q k ≡ ok key) (sym known) built,
      )
]
