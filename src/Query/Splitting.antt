-- ===== src/Query/Splitting.antt =====
-- pkg/query/query.go: what the conditions of a query become in a compiled read.
use table_theory.Base.{
  true, false, Option, none, some, Text, any, to_lower, to_upper, trim_space, Bool, ◌&&◌, ◌||◌, not,
  List, [], ◌∷◌, map, codes, text_eq, ◌≡◌, refl, inl, inr, Bool-cases, if◌then◌else◌,
}
use table_theory.Index.{IndexSchema}
use table_theory.Query.State.{Query, Condition, ModelMetadata}
use table_theory.Query.Compile.{Plan}
use table_theory.Query.Keys.{
  KeyNameSet, Names, Split, equal_fold, key_names_for_index, index_schema_by_name, is_key,
  is_partition_key, is_sort_key, is_sort_operator, upper_operator, condition_names, normalized,
  split_conditions_by_key, partition_conditions_for_keys,
}

-- The conditions that pass a test, in their order.
unfoldable pub kept : (Condition → Bool) → List Condition → List Condition
kept test [] = []
kept test (c ∷ cs) = let rest = kept test cs in if test c then c ∷ rest else rest

abbrev pub same_name : Text → Text → Bool
same_name s t = text_eq (to_lower s) (to_lower t)

-- A condition's names, in Go and in the table, are those of a key that is there.
abbrev pub names_key : Text → Text → Names → Bool
names_key go attr (cond_go, cond_attr) =
    not (text_eq go []) && (same_name cond_go go || same_name cond_attr attr)

abbrev pub on_partition : ModelMetadata → KeyNameSet → Condition → Bool
on_partition m keys c = names_key keys.pk_go keys.pk_attr (condition_names m c)

abbrev pub on_sort : ModelMetadata → KeyNameSet → Condition → Bool
on_sort m keys c = names_key keys.sk_go keys.sk_attr (condition_names m c)

-- What DynamoDB takes for a sort key in a key condition expression.
abbrev pub sort_operators : List Text
sort_operators = map codes ("=" ∷ "<" ∷ "<=" ∷ ">" ∷ ">=" ∷ "BETWEEN" ∷ "BEGINS_WITH" ∷ [])

-- A condition that a key condition expression takes: an equality on the partition key, or one of
-- DynamoDB's operators on a sort key that is not the partition key.
abbrev pub serves_key : ModelMetadata → KeyNameSet → Condition → Bool
serves_key m keys c =
    let op = to_upper (trim_space c.operator) in
    (on_partition m keys c && text_eq op (codes "="))
    || (not (on_partition m keys c) && (on_sort m keys c && any (text_eq op) sort_operators))

-- Two lists by a test.
abbrev pub split_by : ModelMetadata → (Condition → Bool) → List Condition → Split
split_by m test cs =
    (map (normalized m) (kept test cs), map (normalized m) (kept (λ c. not (test c)) cs))

or_false : (b : Bool) → (b || false) ≡ b
or_false true = refl
or_false false = refl

is_sort_operator-any : (op : Text) → is_sort_operator op ≡ any (text_eq op) sort_operators
unfolding is_sort_operator
is_sort_operator-any op = rw (or_false (text_eq op (codes "BEGINS_WITH"))) refl

pub partition_conditions_for_keys-eq :
    (m : ModelMetadata) (keys : KeyNameSet) (cs : List Condition)
    → partition_conditions_for_keys m keys cs ≡ split_by m (serves_key m keys) cs
unfolding partition_conditions_for_keys kept is_key is_partition_key is_sort_key equal_fold
    upper_operator
partition_conditions_for_keys-eq m keys [] = refl
partition_conditions_for_keys-eq m keys (c ∷ cs) =
    let op = to_upper (trim_space c.operator) in
    let ih = partition_conditions_for_keys-eq m keys cs in
    let sort = is_sort_operator-any op in
    elim (Bool-cases (on_partition m keys c)) [
      | inl pk ↦ elim (Bool-cases (text_eq op (codes "="))) [
        | inl eq ↦ rw (ih, pk, eq) refl
        | inr ne ↦ rw (ih, pk, ne) refl
      ]
      | inr not_pk ↦ elim (Bool-cases (on_sort m keys c)) [
        | inl sk ↦ elim (Bool-cases (any (text_eq op) sort_operators)) [
          | inl takes ↦ rw (ih, not_pk, sk, sort, takes) refl
          | inr refuses ↦ rw (ih, not_pk, sk, sort, refuses) refl
        ]
        | inr not_sk ↦ rw (ih, not_pk, not_sk) refl
      ]
    ]

pub split_conditions_by_key-eq :
    (m : ModelMetadata) (keys : KeyNameSet) (cs : List Condition)
    → split_conditions_by_key m keys cs ≡ split_by m (λ c. is_key keys (condition_names m c)) cs
unfolding split_conditions_by_key kept
split_conditions_by_key-eq m keys [] = refl
split_conditions_by_key-eq m keys (c ∷ cs) =
    let ih = split_conditions_by_key-eq m keys cs in
    elim (Bool-cases (is_key keys (condition_names m c))) [
      | inl key ↦ rw (ih, key) refl
      | inr other ↦ rw (ih, other) refl
    ]

-- Every condition is a filter of a Scan.
abbrev pub all_filters : ModelMetadata → Text → List Condition → Plan
all_filters m index cs = record {
  operation = codes "Scan";
  index_name = index;
  key_conditions = [];
  filter_conditions = map (normalized m) cs;
}

-- The conditions that pass a test are on the key in a Query, the others are filters.
abbrev pub keyed : ModelMetadata → Text → (Condition → Bool) → List Condition → Plan
keyed m index test cs = record {
  operation = codes "Query";
  index_name = index;
  key_conditions = map (normalized m) (kept test cs);
  filter_conditions = map (normalized m) (kept (λ c. not (test c)) cs);
}

-- The plan with an index that is named.
abbrev pub named_plan : ModelMetadata → Query → Plan
named_plan m q =
    let keys = key_names_for_index m (index_schema_by_name q.index m.indexes) in
    let serving = map (normalized m) (kept (serves_key m keys) q.conditions) in
    if any (λ c. same_name c.field keys.pk_attr) serving
    then keyed m q.index (serves_key m keys) q.conditions
    else all_filters m q.index q.conditions

-- The plan with the index that is chosen, if any.
abbrev pub chosen_plan : ModelMetadata → List Condition → Option IndexSchema → Plan
chosen_plan m cs none = all_filters m [] cs
chosen_plan m cs (some idx) =
    let keys = key_names_for_index m (some idx) in
    keyed m idx.name (λ c. on_partition m keys c || on_sort m keys c) cs
