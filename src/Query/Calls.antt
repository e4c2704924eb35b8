-- ===== src/Query/Calls.antt =====
-- pkg/query/query.go: what holds of a query after calls that chain on it, without groups.
use table_theory.Base.{
  map_err, ◌>>=◌, Option, none, some, List, [], ◌∷◌, Text, codes, text_eq, trim_space, Result, ok,
  err, ◌≡◌, refl, sym, ◌∙◌, All, All-append, inl, inr, Bool-cases, Assoc, subst,
}
use table_theory.Validation.Value.{Value}
use table_theory.Expr
use table_theory.Expr.{new_builder_with_converter, Builder, ConverterLookup}
use table_theory.Expr.Filters.{add_filter_condition}
use table_theory.Expr.Soundness.{IsSound, IsSound-new_builder}
use table_theory.Expr.Soundness.Operations.{add_filter_condition-Keeps}
use table_theory.Expr.{Members}
use table_theory.Query.Cursor
use table_theory.Query.Pagination.{cursor, set_cursor, start_key, or_recorded, entries_of}
use table_theory.Query.State.{
  invalid_cursor, Query, Condition, ModelMetadata, Model, Error, new_query, record_builder_error,
  reject_encrypted_condition_field, query_builder, query_where, filter_with, filter, or_filter,
  select, with_condition, with_condition_expression, raw_condition, unless_rejected,
  with_primary_key, append_filter, append_condition, add_primary_key_condition, with_result,
  builder_of, resolve_attribute_name, expression, metadata_required, partition_key_required,
  empty_expression,
}
use table_theory.Query.Chain.{
  having_call, cursor_call, converter_call, context_call, marshaler_call, Call, call, calls,
  where_call, filter_call, or_filter_call, condition_call, index_call, limit_call, offset_call,
  order_by_call, select_call, consistent_read_call, if_not_exists_call, if_exists_call, retry_call,
  parallel_scan_call, expression_call,
}

-- What holds of a new builder and is kept by a filter holds of the builder of a query.
pub record IsKept (P : Builder → Type 0) : Type 0 where
  pub of_new : (converter : Option ConverterLookup) → P (new_builder_with_converter converter)
  pub by_filter :
      (logical_op field op : Text) (value : Value) (b : Builder)
      → P b
      → P (add_filter_condition logical_op field op value b).0

-- It holds of the filters' builder where there is one.
abbrev pub OfBuilder : (Builder → Type 0) → Option Builder → Type 0
OfBuilder P none = Unit
OfBuilder P (some b) = P b

abbrev pub IsPlain : Option ModelMetadata → Condition → Type 0
IsPlain metadata c = reject_encrypted_condition_field metadata c.field ≡ none

-- A query of the metadata, of whose builder P holds, with no condition on an encrypted field.
pub record IsValid (P : Builder → Type 0) (metadata : Option ModelMetadata) (q : Query)
    : Type 0 where
  pub same_metadata : q.metadata ≡ metadata
  pub builder_holds : OfBuilder P q.builder
  pub plain_conditions : All (IsPlain metadata) q.conditions

module _ {P : Builder → Type 0} where
  pub builder_of-kept :
      (kept : IsKept P) (q : Query) (b : Option Builder) → OfBuilder P b → P (builder_of q b)
  unfolding query_builder
  builder_of-kept kept q none h = kept.of_new q.converter
  builder_of-kept kept q (some b) h = h

module _ {P : Builder → Type 0} {metadata : Option ModelMetadata} where
  -- A change of other fields.
  same_parts :
      {q r : Query}
      → IsValid P metadata q
      → r.metadata ≡ q.metadata
      → r.builder ≡ q.builder
      → r.conditions ≡ q.conditions
      → IsValid P metadata r
  same_parts h m b c = record {
    same_metadata = m ∙ h.same_metadata;
    builder_holds = subst (OfBuilder P) (sym b) h.builder_holds;
    plain_conditions = subst (All (IsPlain metadata)) (sym c) h.plain_conditions;
  }

  pub record_builder_error-IsValid :
      (e : Error) (q : Query) → IsValid P metadata q → IsValid P metadata (record_builder_error e q)
  unfolding record_builder_error
  record_builder_error-IsValid e q h = same_parts h refl refl refl

  unless_rejected-IsValid :
      (rejected : Option Error) (change : Query → Query) (q : Query)
      → IsValid P metadata q
      → (rejected ≡ none → IsValid P metadata (change q))
      → IsValid P metadata (unless_rejected rejected change q)
  unless_rejected-IsValid (some e) change q h k = record_builder_error-IsValid e q h
  unless_rejected-IsValid none change q h k = k refl

  query_where-IsValid :
      (field op : Text) (value : Value) (q : Query)
      → IsValid P metadata q
      → IsValid P metadata (query_where field op value q)
  unfolding query_where
  query_where-IsValid field op value q h =
      let cond : Condition = record { field = field; operator = op; value = value } in
      unless_rejected-IsValid (reject_encrypted_condition_field q.metadata field)
        (append_condition cond) q h
        λ plain. record {
          same_metadata = h.same_metadata;
          builder_holds = h.builder_holds;
          plain_conditions =
              All-append (IsPlain metadata) q.conditions (cond ∷ []) h.plain_conditions (
                subst (λ meta. reject_encrypted_condition_field meta field ≡ none) h.same_metadata
                    plain,
                tt,
              );
        }

  with_result-IsValid :
      (q : Query) (b : Builder) (r : Result Expr.Error (Unit {0}))
      → IsValid P metadata q
      → P b
      → IsValid P metadata (with_result q (b, r))
  with_result-IsValid q b (ok _) h s = record {
    same_metadata = h.same_metadata;
    builder_holds = s;
    plain_conditions = h.plain_conditions;
  }
  with_result-IsValid q b (err e) h s =
      record_builder_error-IsValid (expression e) (record q { builder = some b })
        (record {
          same_metadata = h.same_metadata;
          builder_holds = s;
          plain_conditions = h.plain_conditions;
        })

  filter_with-IsValid :
      (kept : IsKept P) (logical_op field op : Text) (value : Value) (q : Query)
      → IsValid P metadata q
      → IsValid P metadata (filter_with logical_op field op value q)
  unfolding filter_with
  filter_with-IsValid kept logical_op field op value q h =
      let name = resolve_attribute_name q.metadata field in
      let b = builder_of q q.builder in
      let added = add_filter_condition logical_op name op value b in
      let held = builder_of-kept kept q q.builder h.builder_holds in
      unless_rejected-IsValid (reject_encrypted_condition_field q.metadata field)
        (append_filter logical_op field op value) q h
        λ _.
          with_result-IsValid q added.0 added.1 h (kept.by_filter logical_op name op value b held)

  with_condition-IsValid :
      (field op : Text) (value : Value) (q : Query)
      → IsValid P metadata q
      → IsValid P metadata (with_condition field op value q)
  unfolding with_condition
  with_condition-IsValid field op value q h =
      unless_rejected-IsValid (reject_encrypted_condition_field q.metadata field) _ q h
        λ _. same_parts h refl refl refl

  raw_condition-IsValid :
      (expr : Text) (values : Assoc Value) (q : Query)
      → IsValid P metadata q
      → IsValid P metadata (raw_condition expr values q)
  raw_condition-IsValid [] values q h = record_builder_error-IsValid empty_expression q h
  raw_condition-IsValid (c ∷ s) values q h = same_parts h refl refl refl

  with_primary_key-IsValid :
      (operator : Text) (known : Option ModelMetadata) (q : Query)
      → IsValid P metadata q
      → IsValid P metadata (with_primary_key operator known q)
  with_primary_key-IsValid operator none q h = record_builder_error-IsValid metadata_required q h
  with_primary_key-IsValid operator (some m) q h =
      elim (Bool-cases (text_eq m.primary_key.partition_key [])) [
        | inl empty ↦ rw empty (record_builder_error-IsValid partition_key_required q h)
        | inr given ↦ rw given (same_parts h refl refl refl)
      ]

  -- Taking a cursor sets the start or records an error.
  cursor-IsValid :
      (text : Text) (q : Query) → IsValid P metadata q → IsValid P metadata (cursor text q)
  unfolding cursor set_cursor
  cursor-IsValid [] q h = h
  cursor-IsValid (c ∷ text) q h = go (start_key (c ∷ text))
    where
      go :
          (r : Result Cursor.Error Members)
          → IsValid P metadata (
              or_recorded q
                (map_err invalid_cursor r >>= λ key. ok (record q { exclusive = entries_of key })))
      go (ok key) = same_parts h refl refl refl
      go (err e) = record_builder_error-IsValid (invalid_cursor e) q h

  pub call-IsValid :
      (kept : IsKept P) (c : Call) (q : Query)
      → IsValid P metadata q
      → IsValid P metadata (call c q)
  unfolding call filter or_filter with_condition_expression select add_primary_key_condition
  call-IsValid kept (where_call field op value) q h = query_where-IsValid field op value q h
  call-IsValid kept (filter_call field op value) q h =
      filter_with-IsValid kept (codes "AND") field op value q h
  call-IsValid kept (or_filter_call field op value) q h =
      filter_with-IsValid kept (codes "OR") field op value q h
  call-IsValid kept (condition_call field op value) q h = with_condition-IsValid field op value q h
  call-IsValid kept (expression_call expr values) q h =
      raw_condition-IsValid (trim_space expr) values q h
  call-IsValid kept if_not_exists_call q h =
      with_primary_key-IsValid (codes "attribute_not_exists") q.metadata q h
  call-IsValid kept if_exists_call q h =
      with_primary_key-IsValid (codes "attribute_exists") q.metadata q h
  call-IsValid kept (cursor_call text) q h = cursor-IsValid text q h
  call-IsValid kept (converter_call converter) q h = same_parts h refl refl refl
  call-IsValid kept context_call q h = h
  call-IsValid kept marshaler_call q h = h
  call-IsValid kept having_call q h = h
  call-IsValid kept (index_call name) q h = same_parts h refl refl refl
  call-IsValid kept (limit_call n) q h = same_parts h refl refl refl
  call-IsValid kept (offset_call n) q h = same_parts h refl refl refl
  call-IsValid kept (order_by_call field order) q h = same_parts h refl refl refl
  call-IsValid kept (select_call fields) q h = same_parts h refl refl refl
  call-IsValid kept consistent_read_call q h = same_parts h refl refl refl
  call-IsValid kept (retry_call retries delay) q h = same_parts h refl refl refl
  call-IsValid kept (parallel_scan_call segment total) q h = same_parts h refl refl refl

  calls-keep :
      (kept : IsKept P) (cs : List Call) (q : Query)
      → IsValid P metadata q
      → IsValid P metadata (calls cs q)
  unfolding calls
  calls-keep kept [] q h = h
  calls-keep kept (c ∷ cs) q h = calls-keep kept cs (call c q) (call-IsValid kept c q h)

  pub new_query-IsValid : (model : Option Model) → IsValid P metadata (new_query model metadata)
  unfolding new_query
  new_query-IsValid model = record {
    same_metadata = refl;
    builder_holds = tt;
    plain_conditions = tt;
  }

IsSound-IsKept : IsKept IsSound
IsSound-IsKept = record {
  of_new = IsSound-new_builder;
  by_filter = λ logical_op field op value b h.
      ((add_filter_condition-Keeps logical_op field op value).at b h).sound;
}

-- After any calls that chain on a new query, other than FilterGroup and OrFilterGroup, its metadata
-- are the ones given, the builder of its filters, if any, is sound, and none of its conditions is on a
-- field that is encrypted.
pub calls-IsValid :
    (model : Option Model) (metadata : Option ModelMetadata) (cs : List Call)
    → IsValid IsSound metadata (calls cs (new_query model metadata))
calls-IsValid model metadata cs =
    calls-keep IsSound-IsKept cs (new_query model metadata) (new_query-IsValid model)
