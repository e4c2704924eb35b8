-- ===== src/Query/BestIndex.antt =====
-- pkg/query/query.go with pkg/index/selector.go: a query that an index is chosen for is compiled with
-- a condition on that index's partition key.
use table_theory.Base.{
  Bool, true, some, none, List, [], ◌∷◌, ◌++◌, map, Text, codes, text_eq, text_eq_refl,
  text_eq-false, text_eq_iff, to_lower, ◌≡◌, ◌≢◌, refl, sym, ap, ◌∙◌, inl, inr, Bool-cases,
  Option-cases, AnyOf, AnyOf-map, All, subst,
}
use table_theory.Index
use table_theory.Index.{IndexSchema, is_equality, select_optimal, analyze_conditions}
use table_theory.Index.Selection.{select_optimal-IsFirstBest}
use table_theory.Index.Equality.{IsEqualityOn, analyze_conditions-key}
use table_theory.Query.State.{
  Query, Condition, ModelMetadata, AttributeMetadata, resolve_go_field_name, named_or,
}
use table_theory.Query.Keys.{
  KeyNameSet, is_key, is_partition_key, condition_names, normalized, normalize_condition,
  resolve_condition_names, key_names_for_index, select_best_index, index_condition, equal_fold,
  primary_index,
}
use table_theory.Query.Compile.{compile_with_best_index}
use table_theory.Query.Splitting.{kept, split_conditions_by_key-eq}

-- The metadata of a model: a field that is found by any name is found by its Go name, which is not
-- empty, and every index has a name.
pub record IsLawful (m : ModelMetadata) : Type 0 where
  pub found_by_name :
      (f : Text) (a : AttributeMetadata)
      → m.attribute_metadata f ≡ some a
      → (a.name ≢ []) × (m.attribute_metadata a.name ≡ some a)
  pub named_indexes : All (λ idx. idx.name ≢ []) m.indexes

named_or-given : (d s : Text) → s ≢ [] → named_or d s ≡ s
named_or-given d [] h = absurd (h refl)
named_or-given d (c ∷ s) h = refl

named_or-same : (s : Text) → named_or s s ≡ s
named_or-same [] = refl
named_or-same (c ∷ s) = refl

resolve_go-found :
    (m : ModelMetadata) (f : Text) (a : AttributeMetadata)
    → f ≢ []
    → m.attribute_metadata f ≡ some a
    → resolve_go_field_name (some m) f ≡ named_or f a.name
unfolding resolve_go_field_name
resolve_go-found m [] a h e = absurd (h refl)
resolve_go-found m (c ∷ f) a h e = rw e refl

resolve_go-missing :
    (m : ModelMetadata) (f : Text)
    → m.attribute_metadata f ≡ none
    → resolve_go_field_name (some m) f ≡ f
unfolding resolve_go_field_name
resolve_go-missing m [] e = refl
resolve_go-missing m (c ∷ f) e = rw e refl

index_field-found :
    (m : ModelMetadata) (c : Condition) (a : AttributeMetadata)
    → m.attribute_metadata c.field ≡ some a
    → a.name ≢ []
    → (index_condition m c).field ≡ a.name
unfolding index_condition normalize_condition
index_field-found m c a found h = rw found (named_or-given _ a.name h)

index_field-missing :
    (m : ModelMetadata) (c : Condition)
    → m.attribute_metadata c.field ≡ none
    → (index_condition m c).field ≡ c.field
unfolding index_condition normalize_condition
index_field-missing m c missing = rw (missing, named_or-same c.field, named_or-same c.field) refl

go_name-found :
    (m : ModelMetadata) (c : Condition) (a : AttributeMetadata)
    → m.attribute_metadata c.field ≡ some a
    → m.attribute_metadata a.name ≡ some a
    → (condition_names m c).0 ≡ a.name
unfolding condition_names normalize_condition resolve_condition_names
go_name-found m c a found again = rw (found, again) (named_or-same a.name)

go_name-missing :
    (m : ModelMetadata) (c : Condition)
    → m.attribute_metadata c.field ≡ none
    → (condition_names m c).0 ≡ c.field
unfolding condition_names normalize_condition resolve_condition_names
go_name-missing m c missing = rw (missing, missing, missing) refl

-- The Go name of a condition is that of the field which the indexes see.
condition_names-go :
    (m : ModelMetadata) (c : Condition)
    → IsLawful m
    → (condition_names m c).0 ≡ resolve_go_field_name (some m) (index_condition m c).field
condition_names-go m c law = elim (Option-cases (m.attribute_metadata c.field)) [
  | inl missing ↦
      go_name-missing m c missing
      ∙ sym (
          ap (resolve_go_field_name (some m)) (index_field-missing m c missing)
          ∙ resolve_go-missing m c.field missing)
  | inr (a, found) ↦
      let (given, again) = law.found_by_name c.field a found in
      go_name-found m c a found again
      ∙ sym (
          ap (resolve_go_field_name (some m)) (index_field-found m c a found given)
          ∙ (resolve_go-found m a.name a given again ∙ named_or-same a.name))
]

resolve_go-given :
    (m : ModelMetadata) (f : Text) → IsLawful m → f ≢ [] → resolve_go_field_name (some m) f ≢ []
resolve_go-given m f law h = elim (Option-cases (m.attribute_metadata f)) [
  | inl missing ↦ rw (resolve_go-missing m f missing) h
  | inr (a, found) ↦
      rw (resolve_go-found m f a h found, named_or-given f a.name (law.found_by_name f a found).0)
        (law.found_by_name f a found).0
]

is_partition_key-same :
    (k : KeyNameSet) (names : Text × Text)
    → names.0 ≡ k.pk_go
    → k.pk_go ≢ []
    → is_partition_key k names ≡ true
unfolding is_partition_key equal_fold
is_partition_key-same k (go, attr) e h =
    rw (text_eq-false k.pk_go [] h, e, text_eq_refl (to_lower k.pk_go)) refl

-- The partition key's name in the key set of the chosen index.
pk_go-eq :
    (m : ModelMetadata) (idx : IndexSchema)
    → IsLawful m
    → idx.partition_key ≢ []
    → (idx.name ≡ [] → idx.partition_key ≡ m.primary_key.partition_key)
    → (key_names_for_index m (some idx)).pk_go ≡ resolve_go_field_name (some m) idx.partition_key
unfolding key_names_for_index
pk_go-eq m idx law h primary = elim (Bool-cases (text_eq idx.name [])) [
  | inl table ↦
      rw table
        (ap (resolve_go_field_name (some m)) (sym (primary ((text_eq_iff idx.name []).0 table))))
  | inr named ↦ rw named (named_or-given _ _ (resolve_go-given m idx.partition_key law h))
]

middle-All :
    (P : IndexSchema → Type 0) (before after : List IndexSchema) (idx : IndexSchema)
    → All P (before ++ idx ∷ after)
    → P idx
middle-All P [] after idx h = h.0
middle-All P (b ∷ before) after idx h = middle-All P before after idx h.1

-- Of the indexes that are given to the selector only the table's own has no name.
unnamed_is_table :
    (m : ModelMetadata) (before after : List IndexSchema) (idx : IndexSchema)
    → IsLawful m
    → primary_index m ∷ m.indexes ≡ before ++ idx ∷ after
    → idx.name ≡ []
    → idx.partition_key ≡ m.primary_key.partition_key
unnamed_is_table m [] after idx law e unnamed =
    let same : primary_index m ≡ idx = cc in sym (ap (λ (i : IndexSchema). i.partition_key) same)
unnamed_is_table m (b ∷ before) after idx law e unnamed =
    let rest : m.indexes ≡ before ++ idx ∷ after = cc in
    absurd (
      middle-All _ before after idx (subst (All (λ i. i.name ≢ [])) rest law.named_indexes) unnamed)

-- The condition on the partition key goes to the key conditions.
AnyOf-kept :
    (m : ModelMetadata) (P : Condition → Type 0) (test : Condition → Bool) (cs : List Condition)
    → ((c : Condition) → P c → test c ≡ true)
    → AnyOf P cs
    → AnyOf (λ k. (c : Condition) × P c × (k ≡ normalized m c)) (map (normalized m) (kept test cs))
unfolding kept
AnyOf-kept m P test [] passes h = elim h [ ]
AnyOf-kept m P test (c ∷ cs) passes (inl here) = rw (passes c here) (inl (c, here, refl))
AnyOf-kept m P test (c ∷ cs) passes (inr there) = elim (Bool-cases (test c)) [
  | inl kept_too ↦ rw kept_too (inr (AnyOf-kept m P test cs passes there))
  | inr dropped ↦ rw dropped (AnyOf-kept m P test cs passes there)
]

AnyOf-of_map :
    (m : ModelMetadata) (P : Index.Condition → Type 0) (cs : List Condition)
    → AnyOf P (map (index_condition m) cs)
    → AnyOf (λ c. P (index_condition m c)) cs
AnyOf-of_map m P [] h = elim h [ ]
AnyOf-of_map m P (c ∷ cs) (inl here) = inl here
AnyOf-of_map m P (c ∷ cs) (inr there) = inr (AnyOf-of_map m P cs there)

-- An equality of the query on the partition key of an index, which is a key condition of the plan.
abbrev pub Pins : ModelMetadata → IndexSchema → Condition → Type 0
Pins m idx c =
    (is_equality (index_condition m c).operator ≡ true)
    × (is_partition_key (key_names_for_index m (some idx)) (condition_names m c) ≡ true)

chosen-Pins :
    (m : ModelMetadata) (conditions : List Condition) (idx : IndexSchema)
    → IsLawful m
    → select_best_index m conditions ≡ some idx
    → AnyOf (Pins m idx) conditions
unfolding select_best_index
chosen-Pins m conditions idx law chosen =
    let required = analyze_conditions (map (index_condition m) conditions) in
    let (given, same, (before, after, parts, _, _)) =
      select_optimal-IsFirstBest (primary_index m ∷ m.indexes) required idx chosen in
    let pk : idx.partition_key ≢ [] = λ empty. given (sym same ∙ empty) in
    let pk_go = pk_go-eq m idx law pk (unnamed_is_table m before after idx law parts) in
    let found =
      AnyOf-of_map m (IsEqualityOn required.partition_key) conditions
        (analyze_conditions-key (map (index_condition m) conditions) given) in
    AnyOf-map _ (Pins m idx) conditions
      (λ c (equality, on_key). (
        equality,
        is_partition_key-same (key_names_for_index m (some idx)) (condition_names m c)
            (condition_names-go m c law
              ∙ ap (resolve_go_field_name (some m)) (on_key ∙ sym same)
              ∙ sym pk_go)
            (rw pk_go (resolve_go-given m idx.partition_key law pk)),
      ))
      found

Pins-is_key :
    (m : ModelMetadata) (idx : IndexSchema) (c : Condition)
    → Pins m idx c
    → is_key (key_names_for_index m (some idx)) (condition_names m c) ≡ true
unfolding is_key
Pins-is_key m idx c h = rw h.1 refl

-- For an index that the conditions choose, the compiled read is a Query on it, and its key
-- conditions have one that is an equality of the query's on the partition key of the index, for
-- metadata that finds a field by its Go name and gives every index a name.
pub compile_with_best_index-Pins :
    (m : ModelMetadata) (q : Query) (idx : IndexSchema)
    → IsLawful m
    → select_best_index m q.conditions ≡ some idx
    → let plan = compile_with_best_index m q in
      (plan.operation ≡ codes "Query")
      × (plan.index_name ≡ idx.name)
      × AnyOf (λ k. (c : Condition) × Pins m idx c × (k ≡ normalized m c)) plan.key_conditions
unfolding compile_with_best_index
compile_with_best_index-Pins m q idx law chosen =
    let keys = key_names_for_index m (some idx) in
    rw (chosen, split_conditions_by_key-eq m keys q.conditions)
      (
        refl,
        refl,
        AnyOf-kept m (Pins m idx) (λ c. is_key keys (condition_names m c)) q.conditions
            (Pins-is_key m idx) (chosen-Pins m q.conditions idx law chosen),
      )
