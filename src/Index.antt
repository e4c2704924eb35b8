-- ===== src/Index.antt =====
-- pkg/index/selector.go: the index that a query uses, and the keys that its conditions give.
pub mod Selection
pub mod Analysis
pub mod Equality
mod Examples
use table_theory.Base.{
  ℕ, ◌+◌, Bool, true, false, not, Option, none, some, List, [], ◌∷◌, ◌++◌, ◌&&◌, ◌||◌, Text, codes,
  text_eq, if◌then◌else◌, ltb, to_upper, to_lower,
}

-- struct core.IndexSchema (pkg/core/interfaces.go)
pub record IndexSchema : Type 0 where
  pub name : Text
  pub partition_key : Text
  pub sort_key : Text
  pub index_type : Text
  pub projection_type : Text

-- struct RequiredKeys
pub record RequiredKeys : Type 0 where
  pub partition_key : Text
  pub sort_key : Text
  pub sort_key_op : Text

-- struct Condition, less the value, which nothing here reads
pub record Condition : Type 0 where
  pub field : Text
  pub operator : Text

abbrev is_range : Text → Bool
is_range op =
    text_eq op (codes "between")
    || (text_eq op (codes "<")
        || (text_eq op (codes "<=") || (text_eq op (codes ">") || text_eq op (codes ">="))))

abbrev sort_key_score : Text → ℕ
sort_key_score op =
    if text_eq op (codes "=")
    then 50
    else if text_eq op (codes "begins_with")
    then 40
    else if is_range op
    then 30
    else 0

unfoldable pub score_index : IndexSchema → RequiredKeys → ℕ
unfolding text_eq
score_index idx required =
    if not (text_eq idx.partition_key required.partition_key)
    then 0
    else 100
      + (if not (text_eq required.sort_key []) && text_eq idx.sort_key required.sort_key
          then sort_key_score required.sort_key_op
          else 0)
      + (if text_eq idx.index_type (codes "GSI") then 10 else 0)
      + (if text_eq idx.projection_type (codes "ALL") then 5 else 0)

-- The loop of SelectOptimal, with the best index so far and its score.
unfoldable pub best :
    RequiredKeys → List IndexSchema → Option IndexSchema → ℕ → Option IndexSchema × ℕ
unfolding score_index
best required [] best_index best_score = (best_index, best_score)
best required (idx ∷ indexes) best_index best_score =
    let score = score_index idx required in
    let better = best required indexes (some idx) score in
    let same = best required indexes best_index best_score in
    if ltb best_score score then better else same

abbrev pub positive : Option IndexSchema × ℕ → Option IndexSchema
positive (none, score) = none
positive (some idx, score) = if ltb 0 score then some idx else none

unfoldable pub select_optimal : List IndexSchema → RequiredKeys → Option IndexSchema
unfolding best
select_optimal indexes required =
    let chosen = best required indexes none 0 in
    if text_eq required.partition_key [] then none else positive chosen

unfoldable pub normalize_operator : Text → Text
unfolding text_eq to_upper to_lower
normalize_operator op =
    let up = to_upper op in
    if text_eq up (codes "EQ") || text_eq up (codes "=")
    then codes "="
    else if text_eq up (codes "LT") || text_eq up (codes "<")
    then codes "<"
    else if text_eq up (codes "LE") || text_eq up (codes "<=")
    then codes "<="
    else if text_eq up (codes "GT") || text_eq up (codes ">")
    then codes ">"
    else if text_eq up (codes "GE") || text_eq up (codes ">=")
    then codes ">="
    else if text_eq up (codes "BEGINS_WITH")
    then codes "begins_with"
    else if text_eq up (codes "BETWEEN")
    then codes "between"
    else to_lower op

unfoldable pub is_equality : Text → Bool
unfolding text_eq to_lower
is_equality op = text_eq op (codes "=") || text_eq (to_lower op) (codes "eq")

-- One condition of the first loop, after the test for the partition key: a condition before the
-- partition key is known waits, and a later one may give the sort key.
unfoldable pub sorted_by : RequiredKeys → Condition → RequiredKeys
unfolding normalize_operator
sorted_by required cond = record required {
  sort_key = cond.field;
  sort_key_op = normalize_operator cond.operator;
}

abbrev pub partitioned_by : RequiredKeys → Condition → RequiredKeys
partitioned_by required cond =
    if is_equality cond.operator && text_eq required.partition_key []
    then record required { partition_key = cond.field }
    else required

unfoldable pub scan_conditions :
    List Condition → RequiredKeys → List Condition → RequiredKeys × List Condition
unfolding is_equality text_eq sorted_by
scan_conditions [] required pending = (required, pending)
scan_conditions (cond ∷ conditions) required pending =
    let required' = partitioned_by required cond in
    let waiting = scan_conditions conditions required' (pending ++ cond ∷ []) in
    let sorting = scan_conditions conditions (sorted_by required' cond) pending in
    let passing = scan_conditions conditions required' pending in
    if text_eq required'.partition_key []
    then waiting
    else if text_eq required'.sort_key [] && not (text_eq cond.field required'.partition_key)
    then sorting
    else passing

-- The second loop, over the conditions that waited.
unfoldable pub scan_pending : List Condition → RequiredKeys → RequiredKeys
unfolding text_eq sorted_by
scan_pending [] required = required
scan_pending (cond ∷ pending) required =
    let rest = scan_pending pending required in
    if text_eq cond.field required.partition_key then rest else sorted_by required cond

abbrev pub finish : RequiredKeys × List Condition → RequiredKeys
finish (required, pending) =
    if text_eq required.sort_key [] && not (text_eq required.partition_key [])
    then scan_pending pending required
    else required

unfoldable pub analyze_conditions : List Condition → RequiredKeys
unfolding scan_conditions scan_pending text_eq
analyze_conditions conditions =
    finish (
      scan_conditions conditions (record { partition_key = []; sort_key = []; sort_key_op = [] })
        [])
