-- ===== src/Query/FirstError.antt =====
-- pkg/query/query.go: the error that a query has recorded.
use mathlib.Core.Option
use table_theory.Base.{
  subst, map_err, ◌>>=◌, Option, none, some, [], ◌∷◌, Text, codes, text_eq, trim_space, Result, ok,
  err, ◌≡◌, refl, inl, inr, Bool-cases, Assoc,
}
use table_theory.Validation.Value.{Value}
use table_theory.Expr
use table_theory.Expr.{Builder}
use table_theory.Expr.Filters.{add_filter_condition}
use table_theory.Expr.{Members}
use table_theory.Query.Cursor
use table_theory.Query.Pagination.{cursor, set_cursor, start_key, or_recorded, entries_of}
use table_theory.Query.State.{
  invalid_cursor, Query, Error, ModelMetadata, record_builder_error, unless_rejected, with_result,
  append_filter, builder_of, resolve_attribute_name, query_where, filter_with, filter, or_filter,
  select, with_condition, raw_condition, with_condition_expression, with_primary_key,
  add_primary_key_condition, reject_encrypted_condition_field,
}
use table_theory.Expr.Components.{ExpressionComponents, build}
use table_theory.Expr.Filters.{add_group_filter}
use table_theory.Query.Chain.Groups.{
  Step, Steps, single, filter_group, or_filter_group, no_steps, then_step, sub_query,
  with_sub_error, add_filter_group, after, run_step, run_steps,
}
use table_theory.Query.Chain.{
  having_call, cursor_call, converter_call, context_call, marshaler_call, Call, call, where_call,
  filter_call, or_filter_call, condition_call, index_call, limit_call, offset_call, order_by_call,
  select_call, consistent_read_call, if_not_exists_call, if_exists_call, retry_call,
  parallel_scan_call, expression_call,
}

module _ {e : Error} where
  record_builder_error-keeps :
      (f : Error) (q : Query)
      → q.builder_err ≡ some e
      → (record_builder_error f q).builder_err ≡ some e
  unfolding record_builder_error
  record_builder_error-keeps f q h = rw h refl

  unless_rejected-keeps :
      (rejected : Option Error) (change : Query → Query) (q : Query)
      → q.builder_err ≡ some e
      → (change q).builder_err ≡ some e
      → (unless_rejected rejected change q).builder_err ≡ some e
  unless_rejected-keeps (some f) change q h k = record_builder_error-keeps f q h
  unless_rejected-keeps none change q h k = k

  with_result-keeps :
      (q : Query) (b : Builder) (r : Result Expr.Error (Unit {0}))
      → q.builder_err ≡ some e
      → (with_result q (b, r)).builder_err ≡ some e
  unfolding record_builder_error
  with_result-keeps q b (ok _) h = h
  with_result-keeps q b (err f) h = rw h refl

  filter_with-keeps :
      (logical_op field op : Text) (value : Value) (q : Query)
      → q.builder_err ≡ some e
      → (filter_with logical_op field op value q).builder_err ≡ some e
  unfolding filter_with
  filter_with-keeps logical_op field op value q h =
      let added =
        add_filter_condition logical_op (resolve_attribute_name q.metadata field) op value
          (builder_of q q.builder) in
      unless_rejected-keeps (reject_encrypted_condition_field q.metadata field)
        (append_filter logical_op field op value) q h (with_result-keeps q added.0 added.1 h)

  raw_condition-keeps :
      (expr : Text) (values : Assoc Value) (q : Query)
      → q.builder_err ≡ some e
      → (raw_condition expr values q).builder_err ≡ some e
  raw_condition-keeps [] values q h = record_builder_error-keeps _ q h
  raw_condition-keeps (c ∷ s) values q h = h

  with_primary_key-keeps :
      (operator : Text) (known : Option ModelMetadata) (q : Query)
      → q.builder_err ≡ some e
      → (with_primary_key operator known q).builder_err ≡ some e
  with_primary_key-keeps operator none q h = record_builder_error-keeps _ q h
  with_primary_key-keeps operator (some m) q h =
      elim (Bool-cases (text_eq m.primary_key.partition_key [])) [
        | inl empty ↦ rw empty (record_builder_error-keeps _ q h)
        | inr given ↦ rw given h
      ]

  cursor-keeps :
      (text : Text) (q : Query) → q.builder_err ≡ some e → (cursor text q).builder_err ≡ some e
  unfolding cursor set_cursor
  cursor-keeps [] q h = h
  cursor-keeps (c ∷ text) q h = go (start_key (c ∷ text))
    where
      go :
          (r : Result Cursor.Error Members)
          → let next =
              or_recorded q (
                map_err invalid_cursor r >>= λ key. ok (record q { exclusive = entries_of key })) in
            next.builder_err ≡ some e
      go (ok key) = h
      go (err f) = record_builder_error-keeps (invalid_cursor f) q h

  pub call-keeps : (c : Call) (q : Query) → q.builder_err ≡ some e → (call c q).builder_err ≡ some e
  unfolding call query_where filter or_filter with_condition with_condition_expression select
      add_primary_key_condition
  call-keeps (where_call field op value) q h =
      unless_rejected-keeps (reject_encrypted_condition_field q.metadata field) _ q h h
  call-keeps (filter_call field op value) q h = filter_with-keeps (codes "AND") field op value q h
  call-keeps (or_filter_call field op value) q h = filter_with-keeps (codes "OR") field op value q h
  call-keeps (condition_call field op value) q h =
      unless_rejected-keeps (reject_encrypted_condition_field q.metadata field) _ q h h
  call-keeps (expression_call expr values) q h = raw_condition-keeps (trim_space expr) values q h
  call-keeps if_not_exists_call q h =
      with_primary_key-keeps (codes "attribute_not_exists") q.metadata q h
  call-keeps if_exists_call q h = with_primary_key-keeps (codes "attribute_exists") q.metadata q h
  call-keeps (cursor_call text) q h = cursor-keeps text q h
  call-keeps (converter_call converter) q h = h
  call-keeps context_call q h = h
  call-keeps marshaler_call q h = h
  call-keeps having_call q h = h
  call-keeps (index_call name) q h = h
  call-keeps (limit_call n) q h = h
  call-keeps (offset_call n) q h = h
  call-keeps (order_by_call field order) q h = h
  call-keeps (select_call fields) q h = h
  call-keeps consistent_read_call q h = h
  call-keeps (retry_call retries delay) q h = h
  call-keeps (parallel_scan_call segment total) q h = h

abbrev HasError : Error → Option Query → Type 0
HasError e none = Unit
HasError e (some q) = q.builder_err ≡ some e

module _ (e : Error) where
  after-HasError :
      (sub : Option Query) (next : Query → Option Query)
      → ((q : Query) → HasError e (next q))
      → HasError e (after sub next)
  after-HasError none next h = tt
  after-HasError (some q) next h = h q

  following-HasError :
      (step : Option Query) (next : Query → Option Query)
      → HasError e step
      → ((q : Query) → q.builder_err ≡ some e → HasError e (next q))
      → HasError e (after step next)
  following-HasError none next h k = tt
  following-HasError (some q) next h k = k q h

  with_sub_error-keeps :
      (known : Option Error) (q : Query)
      → q.builder_err ≡ some e
      → (with_sub_error known q).builder_err ≡ some e
  with_sub_error-keeps none q h = h
  with_sub_error-keeps (some f) q h = record_builder_error-keeps f q h

  add_filter_group-HasError :
      (operator : Text) (q sub : Query)
      → q.builder_err ≡ some e
      → HasError e (add_filter_group operator q sub)
  unfolding add_filter_group
  add_filter_group-HasError operator q sub h = go (build (builder_of sub sub.builder))
    where
      go :
          (built : Option ExpressionComponents)
          → HasError e (
              Option.map
                (λ components. record (with_sub_error sub.builder_err q) {
                  builder = some (add_group_filter operator components (builder_of q q.builder));
                })
                built)
      go none = tt
      go (some components) = with_sub_error-keeps sub.builder_err q h

  run_step-HasError :
      (step : Step) (q : Query) → q.builder_err ≡ some e → HasError e (run_step step q)
  unfolding run_step
  run_step-HasError (single c) q h = call-keeps c q h
  run_step-HasError (filter_group fn) q h =
      after-HasError (run_steps fn (sub_query q)) _
        λ sub. add_filter_group-HasError (codes "AND") q sub h
  run_step-HasError (or_filter_group fn) q h =
      after-HasError (run_steps fn (sub_query q)) _
        λ sub. add_filter_group-HasError (codes "OR") q sub h

  run_steps-HasError :
      (steps : Steps) (q : Query) → q.builder_err ≡ some e → HasError e (run_steps steps q)
  unfolding run_steps
  run_steps-HasError no_steps q h = h
  run_steps-HasError (then_step step steps) q h =
      following-HasError (run_step step q) (λ next. run_steps steps next)
        (run_step-HasError step q h) (λ next. run_steps-HasError steps next)

  -- An error that a query has recorded is still the recorded one after any further steps that return.
  pub run_steps-keeps :
      (steps : Steps) (q next : Query)
      → q.builder_err ≡ some e
      → run_steps steps q ≡ some next
      → next.builder_err ≡ some e
  run_steps-keeps steps q next h ran = subst (HasError e) ran (run_steps-HasError steps q h)
