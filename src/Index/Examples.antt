-- ===== src/Index/Examples.antt =====
-- Indexes and conditions at concrete values, and the theorems about them there.
use table_theory.Base.{true, false, ◌≡◌, ◌≢◌, refl, List, [], ◌∷◌, some, codes, text_eq}
use table_theory.Index.{
  IndexSchema, RequiredKeys, Condition, select_optimal, analyze_conditions, is_equality,
}
use table_theory.Index.Selection.{IsFirstBest, select_optimal-IsFirstBest}
use table_theory.Index.Analysis.{keys, first_other, analyze_conditions-equality}

abbrev by_status : IndexSchema
by_status = record {
  name = codes "by_status";
  partition_key = codes "status";
  sort_key = codes "created";
  index_type = codes "GSI";
  projection_type = codes "KEYS_ONLY";
}

abbrev by_status_all : IndexSchema
by_status_all = record by_status { name = codes "by_status_all"; projection_type = codes "ALL" }

abbrev indexes : List IndexSchema
indexes = by_status ∷ by_status_all ∷ []

abbrev required : RequiredKeys
required = record {
  partition_key = codes "status";
  sort_key = codes "created";
  sort_key_op = codes "between";
}

chooses : select_optimal indexes required ≡ some by_status_all
unfolding select_optimal
chooses = refl

select_optimal-IsFirstBest_example :
    (required.partition_key ≢ [])
    × (by_status_all.partition_key ≡ required.partition_key)
    × IsFirstBest required indexes by_status_all
select_optimal-IsFirstBest_example =
    select_optimal-IsFirstBest indexes required by_status_all chooses

abbrev newer : Condition
newer = record { field = codes "created"; operator = codes "GT" }

abbrev with_status : Condition
with_status = record { field = codes "status"; operator = codes "Eq" }

newer-IsOther : is_equality newer.operator ≡ false
unfolding is_equality
newer-IsOther = refl

status-IsEquality : is_equality with_status.operator ≡ true
unfolding is_equality
status-IsEquality = refl

status-HasField : text_eq with_status.field [] ≡ false
unfolding text_eq
status-HasField = refl

analyze_conditions-equality_example :
    analyze_conditions (newer ∷ with_status ∷ [])
    ≡ keys (codes "status") (first_other (codes "status") (newer ∷ []))
analyze_conditions-equality_example =
    analyze_conditions-equality (newer ∷ []) [] with_status (newer-IsOther, tt) status-IsEquality
      status-HasField tt

sorts_by_created :
    analyze_conditions (newer ∷ with_status ∷ [])
    ≡ record { partition_key = codes "status"; sort_key = codes "created"; sort_key_op = codes ">" }
unfolding analyze_conditions
sorts_by_created = refl
