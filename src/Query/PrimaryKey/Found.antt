-- ===== src/Query/PrimaryKey/Found.antt =====
-- pkg/query/query.go: the values that the conditions of a query give to the primary key.
use table_theory.Base.{
  Bool, true, not, Option, none, some, List, [], ◌∷◌, ok, err, ◌≡◌, refl, sym, ap, ◌∙◌, All, all,
  inl, inr, ◌||◌, Bool-cases, if◌then◌else◌,
}
use table_theory.Validation.Value.{Value}
use table_theory.Query.State.{Condition, ModelMetadata, key_operator}
use table_theory.Query.PrimaryKey.{
  KeyNames, KeyValues, names_partition_key, names_sort_key, is_equal_operator,
  extract_get_item_key_values, extract_primary_key_values,
}

module _ (m : ModelMetadata) (k : KeyNames) where
  -- The value of the last condition on the partition key.
  abbrev pub last_partition_value : Option Value → List Condition → Option Value
  last_partition_value found [] = found
  last_partition_value found (c ∷ cs) =
      last_partition_value (if names_partition_key m k c then some c.value else found) cs

  -- The value of the last condition that is on the sort key, and not on the partition key.
  abbrev pub last_sort_value : Option Value → List Condition → Option Value
  last_sort_value found [] = found
  last_sort_value found (c ∷ cs) =
      last_sort_value
        (if names_partition_key m k c
          then found
          else if names_sort_key m k c
          then some c.value
          else found)
        cs

  -- An equality on a key, or a condition on another field.
  abbrev pub IsKeyEquality : Condition → Type 0
  IsKeyEquality c =
      (names_partition_key m k c || names_sort_key m k c ≡ true) × (is_equal_operator c ≡ true)

  extract_get_item-found :
      (cs : List Condition) (pk sk : Option Value) (found : KeyValues)
      → extract_get_item_key_values m k cs (pk, sk) ≡ some found
      → (found ≡ (last_partition_value pk cs, last_sort_value sk cs)) × All IsKeyEquality cs
  unfolding extract_get_item_key_values
  extract_get_item-found [] pk sk found e = (cc, tt)
  extract_get_item-found (c ∷ cs) pk sk found e = elim (Bool-cases (names_partition_key m k c)) [
    | inl on_pk ↦ elim (Bool-cases (is_equal_operator c)) [
      | inl equal ↦
          let ih = extract_get_item-found cs (some c.value) sk found (rw (on_pk, equal) at e) in
          rw on_pk (ih.0, ((refl, equal), ih.1))
      | inr other ↦ cc (rw (on_pk, other) at e)
    ]
    | inr not_pk ↦ elim (Bool-cases (names_sort_key m k c)) [
      | inl on_sk ↦ elim (Bool-cases (is_equal_operator c)) [
        | inl equal ↦
            let ih =
              extract_get_item-found cs pk (some c.value) found (rw (not_pk, on_sk, equal) at e) in
            rw (not_pk, on_sk) (ih.0, ((refl, equal), ih.1))
        | inr other ↦ cc (rw (not_pk, on_sk, other) at e)
      ]
      | inr not_sk ↦ cc (rw (not_pk, not_sk) at e)
    ]
  ]

  -- A condition on a key is an equality.
  abbrev pub key_is_equality : Condition → Bool
  key_is_equality c = not (names_partition_key m k c || names_sort_key m k c) || is_equal_operator c

  -- The values that updates and deletes take from the conditions: an error where a condition on a key
  -- is no equality, and the values of the last conditions otherwise.
  pub extract_primary_key-eq :
      (cs : List Condition) (pk sk : Option Value)
      → extract_primary_key_values m k cs (pk, sk) ≡ (
          if all key_is_equality cs
          then ok (last_partition_value pk cs, last_sort_value sk cs)
          else err key_operator)
  unfolding extract_primary_key_values
  extract_primary_key-eq [] pk sk = refl
  extract_primary_key-eq (c ∷ cs) pk sk = elim (Bool-cases (names_partition_key m k c)) [
    | inl on_pk ↦ elim (Bool-cases (is_equal_operator c)) [
      | inl equal ↦ rw (on_pk, equal) (extract_primary_key-eq cs (some c.value) sk)
      | inr other ↦ rw (on_pk, other) refl
    ]
    | inr not_pk ↦ elim (Bool-cases (names_sort_key m k c)) [
      | inl on_sk ↦ elim (Bool-cases (is_equal_operator c)) [
        | inl equal ↦ rw (not_pk, on_sk, equal) (extract_primary_key-eq cs pk (some c.value))
        | inr other ↦ rw (not_pk, on_sk, other) refl
      ]
      | inr not_sk ↦ rw (not_pk, not_sk) (extract_primary_key-eq cs pk sk)
    ]
  ]

  IsKeyEquality-all : (cs : List Condition) → All IsKeyEquality cs → all key_is_equality cs ≡ true
  IsKeyEquality-all [] h = refl
  IsKeyEquality-all (c ∷ cs) h = rw (h.0.0, h.0.1) (IsKeyEquality-all cs h.1)

  -- Where GetItem can serve the conditions, updates and deletes find the same values.
  pub extract_primary_key-get_item :
      (cs : List Condition) (found : KeyValues)
      → extract_get_item_key_values m k cs (none, none) ≡ some found
      → (extract_primary_key_values m k cs (none, none) ≡ ok found) × All IsKeyEquality cs
  extract_primary_key-get_item cs found e =
      let (values, equalities) = extract_get_item-found cs none none found e in
      (
        extract_primary_key-eq cs none none
            ∙ rw (IsKeyEquality-all cs equalities) (ap ok (sym values)),
        equalities,
      )
