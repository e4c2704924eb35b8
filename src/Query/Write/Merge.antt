-- ===== src/Query/Write/Merge.antt =====
-- mergeConditionExpressions (pkg/query/query.go): no placeholder changes its value.
use table_theory.Base.{
  Option, none, some, List, [], ◌∷◌, Text, text_eq, text_eq_iff, Assoc, lookup, insert,
  lookup-insert, lookup-insert_self, Result, ok, err, map_err, >>=-eq-ok, ◌≡◌, ◌≢◌, refl, All,
  All-map, inl, inr, Bool-cases,
}
use table_theory.Validation.Value.{Value}
use table_theory.Expr
use table_theory.Expr.{AttributeValue, ConverterLookup}
use table_theory.Query.State.{ConditionExpression, in_condition}
use table_theory.Query.PrimaryKey.{to_attribute_value}
use table_theory.Query.Write.{unused, merge_values, merge_condition_expressions, joined}

-- Every value of the first map is in the second.
abbrev pub KeepsValues : Assoc AttributeValue → Assoc AttributeValue → Type 0
KeepsValues from to =
    (p : Text) (v : AttributeValue) → lookup p from ≡ some v → lookup p to ≡ some v

-- The converted value stands at the placeholder.
abbrev pub IsBound : Option ConverterLookup → Assoc AttributeValue → Text × Value → Type 0
IsBound converter values (key, value) =
    (av : AttributeValue) × (to_attribute_value converter value ≡ ok av)
    × (lookup key values ≡ some av)

insert-KeepsValues :
    (key : Text) (av : AttributeValue) (values : Assoc AttributeValue)
    → lookup key values ≡ none
    → KeepsValues values (insert key av values)
insert-KeepsValues key av values free p v e = elim (Bool-cases (text_eq key p)) [
  | inl same ↦ absurd (cc (free, e, (text_eq_iff key p).0 same))
  | inr other ↦ rw (lookup-insert key p av values, other) e
]

unused-ok :
    (key : Text) (taken : Option AttributeValue) (u : Unit {0})
    → unused key taken ≡ ok u
    → taken ≡ none
unused-ok key none u e = refl
unused-ok key (some av) u e = cc

map_err-ok :
    (key : Text) (r : Result Expr.Error AttributeValue) (av : AttributeValue)
    → map_err (in_condition key) r ≡ ok av
    → r ≡ ok av
map_err-ok key (ok v) av e = cc
map_err-ok key (err x) av e = cc

merge_values-KeepsValues :
    (converter : Option ConverterLookup) (raw : Assoc Value) (values out : Assoc AttributeValue)
    → merge_values converter raw values ≡ ok out
    → KeepsValues values out × All (IsBound converter out) raw
unfolding merge_values
merge_values-KeepsValues converter [] values out e =
    ((λ p v h. let same : values ≡ out = cc in rw (← same) h), tt)
merge_values-KeepsValues converter ((key, value) ∷ raw) values out e =
    let (u, is_unused, rest) = >>=-eq-ok (unused key (lookup key values)) _ e in
    let (av, is_converted, merged) =
      >>=-eq-ok (map_err (in_condition key) (to_attribute_value converter value)) _ rest in
    let free = unused-ok key (lookup key values) u is_unused in
    let converted = map_err-ok key (to_attribute_value converter value) av is_converted in
    let (keeps, bound) = merge_values-KeepsValues converter raw (insert key av values) out merged in
    (
      λ p v h. keeps p v (insert-KeepsValues key av values free p v h),
      ((av, converted, keeps key av (lookup-insert_self key av values)), bound),
    )

-- A raw expression that counts has its values bound.
abbrev pub RawIsBound : Option ConverterLookup → Assoc AttributeValue → ConditionExpression → Type 0
RawIsBound converter values raw = raw.expression ≢ [] → All (IsBound converter values) raw.values

-- Where the raw expressions of a write are merged with its conditions, every placeholder of the
-- conditions keeps its value, and every placeholder of a raw expression that is not empty stands for
-- its own value, converted.
pub merge_condition_expressions-KeepsValues :
    (converter : Option ConverterLookup) (raws : List ConditionExpression) (expr : Text)
    (values : Assoc AttributeValue) (out : Text × Assoc AttributeValue)
    → merge_condition_expressions converter raws expr values ≡ ok out
    → KeepsValues values out.1 × All (RawIsBound converter out.1) raws
unfolding merge_condition_expressions
merge_condition_expressions-KeepsValues converter [] expr values out e =
    ((λ p v h. let same : values ≡ out.1 = cc in rw (← same) h), tt)
merge_condition_expressions-KeepsValues converter (raw ∷ raws) expr values out e =
    elim (Bool-cases (text_eq raw.expression [])) [
      | inl empty ↦
          let (keeps, bound) =
            merge_condition_expressions-KeepsValues converter raws expr values out
              (rw empty at e) in
          (keeps, (λ given. absurd (given ((text_eq_iff raw.expression []).0 empty)), bound))
      | inr given ↦
          let (merged, one, rest) =
            >>=-eq-ok (merge_values converter raw.values values) _ (rw given at e) in
          let (keeps_one, bound_one) =
            merge_values-KeepsValues converter raw.values values merged one in
          let (keeps, bound) =
            merge_condition_expressions-KeepsValues converter raws (joined expr raw.expression)
              merged out rest in
          (
            λ p v h. keeps p v (keeps_one p v h),
            (λ _. All-map _ _ raw.values (λ kv b. (b.0, b.1, keeps kv.0 b.0 b.2)) bound_one, bound),
          )
    ]
