-- ===== src/Query/Cases.antt =====
-- Runs and concrete cases of the query builder, its compilation and its reads.
use mathlib.Core.Option
use table_theory.Base.{
  String, inr, ℕ, suc, true, none, some, List, [], ◌∷◌, codes, Assoc, Result, ok, err, ◌≡◌, refl,
  All, AnyOf, inl, arith,
}
use table_theory.Base.Int.{pos}
use table_theory.Validation.Value.{string_value, int_value}
use table_theory.Expr
use table_theory.Expr.{AttributeValue, string_attr, new_builder}
use table_theory.Expr.Convert.{format_int}
use table_theory.Query.State.{
  Query, Condition, Error, new_query, encrypted_field_not_queryable, item_not_found,
  ConditionExpression,
}
use table_theory.Query.Chain.{
  cursor_call, filter_call, index_call, calls, Call, where_call, limit_call, consistent_read_call,
}
use table_theory.Query.Keys.{select_best_index, normalized}
use table_theory.Query.Compile.{
  compile_operation, CompiledQuery, compile, compile_scan, compile_with_best_index,
}
use table_theory.Expr.Soundness.{IsSound}
use table_theory.Query.Chain.Groups.{
  Steps, single, filter_group, or_filter_group, no_steps, then_step, run_steps,
}
use table_theory.Query.BestIndex.{Pins, compile_with_best_index-Pins}
use table_theory.Query.Calls.{IsValid, calls-IsValid}
use table_theory.Query.Total.{compile_total}
use table_theory.Query.Settings.{LimitFits, compile-settings}
use table_theory.Query.PrimaryKey.{
  KeyNames, resolve_primary_key_names, compile_get_item, build_primary_key_map,
}
use table_theory.Query.PrimaryKey.Found.{IsKeyEquality}
use table_theory.Query.PrimaryKey.GetItem.{compile_get_item-key}
use table_theory.Query.Write.{merge_condition_expressions}
use table_theory.Query.Write.Merge.{
  KeepsValues, RawIsBound, merge_condition_expressions-KeepsValues,
}
use table_theory.Query.Retries.{
  IsBounded, is_not_found, is_missing, max_delay, first_with_retry, all_with_retry,
  with_retry-IsBounded,
}
use table_theory.Query.Read.{Executor, all_items, first, scan}
use table_theory.Query.Outcomes.{recorded_error-stops, first_of_run, IsRead, first-eq-all}
use table_theory.Query.Sample.{users, users-IsLawful, by_email, where_equal, user_query}

-- By the address, with a condition on another field.
abbrev by_address : List Call
by_address =
    where_equal "Email" "a@b.c"
    ∷ where_call (codes "ID") (codes "!=") (string_value (codes "7"))
    ∷ limit_call (pos 5000000000)
    ∷ consistent_read_call
    ∷ []

by_address-index : select_best_index users (user_query by_address).conditions ≡ some by_email
unfolding select_best_index calls new_query
by_address-index = refl

compile_with_best_index-Pins_example :
    let q = user_query by_address in
    let plan = compile_with_best_index users q in
    (plan.operation ≡ codes "Query")
    × (plan.index_name ≡ codes "by-email")
    × AnyOf
        (λ k. (c : Condition) × Pins users by_email c × (k ≡ normalized users c))
        plan.key_conditions
compile_with_best_index-Pins_example =
    compile_with_best_index-Pins users (user_query by_address) by_email users-IsLawful
      by_address-index

-- An index is named, one condition serves its sort key, and one on it does not.
abbrev odd_keys : Query
odd_keys = user_query (
    where_equal "Email" "a@b.c"
    ∷ where_call (codes "created") (codes " begins_with") (string_value (codes "2024"))
    ∷ where_call (codes "Created") (codes "CONTAINS") (string_value (codes "1"))
    ∷ index_call (codes "by-email")
    ∷ [])

abbrev on : String → String → String → Condition
on field operator value = record {
  field = codes field;
  operator = codes operator;
  value = string_value (codes value);
}

odd_keys_test : compile_operation users odd_keys ≡ record {
  operation = codes "Query";
  index_name = codes "by-email";
  key_conditions = on "email" "=" "a@b.c" ∷ on "created" " begins_with" "2024" ∷ [];
  filter_conditions = on "created" "CONTAINS" "1" ∷ [];
}
unfolding compile_operation calls new_query
odd_keys_test = refl

calls-IsValid_example : IsValid IsSound (some users) (user_query by_address)
calls-IsValid_example = calls-IsValid none (some users) by_address

-- Two groups of filters, the second with a group of its own and an encrypted field.
abbrev one_filter : String → Steps
one_filter field =
    then_step (single (filter_call (codes field) (codes "=") (string_value (codes "x")))) no_steps

abbrev grouped : Steps
grouped = then_step (filter_group (one_filter "Email")) (
    then_step (or_filter_group (then_step (filter_group (one_filter "ID")) (one_filter "Secret")))
      no_steps)

compile_total_example :
    (q : Query) × (run_steps grouped (new_query none (some users)) ≡ some q)
    × ((out : Result Expr.Error CompiledQuery) × (compile q ≡ some out))
    × ((out : Result Expr.Error CompiledQuery) × (compile_scan q ≡ some out))
compile_total_example = compile_total none users grouped

abbrev limited : Query
limited = user_query (limit_call (pos 5000000000) ∷ [])

abbrev limited_scan : CompiledQuery
limited_scan = record {
  table_name = codes "users";
  operation = codes "Scan";
  index_name = [];
  key_condition_expression = [];
  filter_expression = [];
  projection_expression = [];
  expression_attribute_names = [];
  expression_attribute_values = [];
  limit = some (pos 2147483647);
  scan_index_forward = none;
  exclusive_start_key = [];
  consistent_read = none;
  offset = none;
  segment = none;
  total_segments = none;
}

limited-compile : compile limited ≡ some (ok limited_scan)
unfolding compile calls new_query
limited-compile = refl

compile-settings_example :
    LimitFits (pos 5000000000) (some (pos 2147483647))
    × (limited_scan.exclusive_start_key ≡ limited.exclusive)
    × (limited_scan.consistent_read ≡ some true
        → (limited_scan.index_name ≡ []) × (limited.consistent_read ≡ true))
unfolding calls new_query
compile-settings_example = compile-settings limited limited_scan (inl limited-compile)

abbrev by_key : Query
by_key = user_query (where_equal "ID" "7" ∷ where_equal "created" "2024" ∷ [])

abbrev user_key : Assoc AttributeValue
user_key =
    (codes "id", string_attr (codes "7")) ∷ (codes "created", string_attr (codes "2024")) ∷ []

abbrev get_user : CompiledQuery
get_user = record limited_scan { operation = codes "GetItem"; limit = none }

by_key-compiled : compile_get_item users by_key ≡ some (ok (some (get_user, user_key)))
unfolding compile_get_item calls new_query
by_key-compiled = refl

compile_get_item-key_example :
    (by_key.index ≡ [])
    × (by_key.builder ≡ none)
    × ((k : KeyNames) × (resolve_primary_key_names users ≡ ok k)
        × All (IsKeyEquality users k) by_key.conditions)
    × (build_primary_key_map (codes "delete") by_key ≡ ok user_key)
compile_get_item-key_example =
    compile_get_item-key users by_key get_user user_key (codes "delete")
      (unfold calls new_query in refl) by_key-compiled

-- Two raw expressions, the second of which is empty.
abbrev raws : List ConditionExpression
raws =
    record { expression = codes "size(#n) < :max"; values = (codes ":max", int_value (pos 3)) ∷ [] }
    ∷ record { expression = []; values = (codes ":max", int_value (pos 4)) ∷ [] }
    ∷ []

abbrev base_values : Assoc AttributeValue
base_values = (codes ":v1", string_attr (codes "x")) ∷ []

abbrev all_values : Assoc AttributeValue
all_values =
    (codes ":v1", string_attr (codes "x")) ∷ (codes ":max", Expr.number_attr (codes "3")) ∷ []

raws-merged :
    merge_condition_expressions none raws (codes "id = :v1") base_values
    ≡ ok (codes "(id = :v1) AND (size(#n) < :max)", all_values)
unfolding merge_condition_expressions format_int
raws-merged = refl

merge_condition_expressions-KeepsValues_example :
    KeepsValues base_values all_values × All (RawIsBound none all_values) raws
merge_condition_expressions-KeepsValues_example =
    merge_condition_expressions-KeepsValues none raws (codes "id = :v1") base_values
      (codes "(id = :v1) AND (size(#n) < :max)", all_values) raws-merged

-- A store that counts its reads, and has an item from the third one on.
abbrev late_item : ℕ → ℕ × Result Error ℕ
late_item n = (suc n, elim n [ suc (suc m) ↦ ok 7 | _ ↦ err item_not_found ])

abbrev late_items : ℕ → ℕ × Result Error (List ℕ)
late_items n = (suc n, elim n [ suc (suc m) ↦ ok (7 ∷ []) | _ ↦ ok [] ])

with_retry-IsBounded_example :
    IsBounded late_item is_not_found
      (λ n. n)
      4
      0
      max_delay
      (first_with_retry late_item (pos 4) (pos 100) 0)
    × IsBounded late_items is_missing
        (λ n. n)
        4
        0
        max_delay
        (all_with_retry late_items [] (pos 4) (pos 100) 0)
with_retry-IsBounded_example =
    with_retry-IsBounded late_item late_items [] (λ n. n) max_delay 4 100 0 (λ s. refl) (λ s. refl)
      (omega arith) (omega arith)

first_with_retry_test : first_with_retry late_item (pos 4) (pos 100) 0 ≡ (3, ok 7, 100 ∷ 200 ∷ [])
unfolding first_with_retry
first_with_retry_test = refl

-- An executor whose state is the number of its calls.
abbrev counting : Executor ℕ ℕ
counting = record {
  execute_query = λ c n. (suc n, ok (1 ∷ 2 ∷ []));
  execute_scan = λ c n. (suc n, ok (3 ∷ []));
  execute_get_item = none;
}

abbrev rejected : Query
rejected = user_query (where_equal "Secret" "x" ∷ [])

-- A group that records an error of its own, and a cursor that is not one.
abbrev more_errors : Steps
more_errors =
    then_step (filter_group (one_filter "Secret"))
      (then_step (single (cursor_call (codes "???"))) no_steps)

abbrev still_rejected : Query
still_rejected = record rejected { builder = some new_builder }

more_errors-ran : run_steps more_errors rejected ≡ some still_rejected
unfolding run_steps calls new_query new_builder
more_errors-ran = refl

recorded_error-stops_example :
    let e = encrypted_field_not_queryable (codes "Secret") in
    (all_items counting still_rejected [] 5 ≡ some (5, err e, []))
    × (first counting still_rejected 5 ≡ some (5, err e, []))
    × (scan counting still_rejected 5 ≡ some (5, err e, []))
recorded_error-stops_example =
    recorded_error-stops counting more_errors rejected still_rejected
      (encrypted_field_not_queryable (codes "Secret")) [] 5 (unfold calls new_query in refl)
      more_errors-ran

-- An executor with GetItem, which does not serve a query without a key.
abbrev getting : Executor ℕ ℕ
getting = record counting { execute_get_item = some (λ c key n. (suc n, ok 9)) }

limited-IsRead : IsRead getting limited
unfolding calls new_query compile_get_item
limited-IsRead = inr refl

first-eq-all_example :
    first getting limited 5
    ≡ Option.map (first_of_run getting) (all_items getting (record limited { limit = pos 1 }) [] 5)
first-eq-all_example =
    first-eq-all getting limited [] 5 (unfold calls new_query in refl) limited-IsRead

first_test : first counting limited 5 ≡ some (6, ok 3, [])
unfolding first calls new_query
first_test = refl
