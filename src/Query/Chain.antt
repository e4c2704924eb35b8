-- ===== src/Query/Chain.antt =====
-- pkg/query/query.go: the calls of the methods that chain on a query, and those of groups of filters.
pub mod Groups
use table_theory.Base.{true, Option, some, List, [], ◌∷◌, Text, codes, Assoc}
use table_theory.Base.Int.{ℤ}
use table_theory.Validation.Value.{Value}
use table_theory.Expr.{ConverterLookup}
use table_theory.Query.State.{
  Query, query_where, filter, or_filter, with_condition, select, with_condition_expression,
  add_primary_key_condition,
}
use table_theory.Query.Pagination.{cursor}

-- A call of a method that chains, other than FilterGroup and OrFilterGroup. The context, which
-- WithContext and QueryTimeout set, and the marshaler are outside the record, and Having does nothing.
pub data Call : Type 0 where
  where_call filter_call or_filter_call condition_call : Text → Text → Value → Call
  index_call : Text → Call
  limit_call offset_call : ℤ → Call
  order_by_call : Text → Text → Call
  select_call : List Text → Call
  consistent_read_call if_not_exists_call if_exists_call : Call
  retry_call : ℤ → ℤ → Call
  parallel_scan_call : ℤ → ℤ → Call
  expression_call : Text → Assoc Value → Call
  cursor_call : Text → Call
  converter_call : Option ConverterLookup → Call
  context_call marshaler_call having_call : Call

unfoldable pub call : Call → Query → Query
unfolding query_where filter or_filter with_condition select with_condition_expression
    add_primary_key_condition cursor
call (where_call field op value) q = query_where field op value q
call (filter_call field op value) q = filter field op value q
call (or_filter_call field op value) q = or_filter field op value q
call (condition_call field op value) q = with_condition field op value q
call (index_call name) q = record q { index = name }
call (limit_call n) q = record q { limit = n }
call (offset_call n) q = record q { offset = some n }
call (order_by_call field order) q = record q { order_by = record { field = field; order = order } }
call (select_call fields) q = select fields q
call consistent_read_call q = record q { consistent_read = true }
call if_not_exists_call q = add_primary_key_condition (codes "attribute_not_exists") q
call if_exists_call q = add_primary_key_condition (codes "attribute_exists") q
call (retry_call retries delay) q = record q {
  retry_config = some (record { max_retries = retries; initial_delay = delay });
}
call (parallel_scan_call segment total) q = record q {
  segment = some segment;
  total_segments = some total;
}
call (expression_call expr values) q = with_condition_expression expr values q
call (cursor_call text) q = cursor text q
call (converter_call converter) q = record q { converter = converter }
call context_call q = q
call marshaler_call q = q
call having_call q = q

unfoldable pub calls : List Call → Query → Query
unfolding call
calls [] q = q
calls (c ∷ cs) q = calls cs (call c q)
