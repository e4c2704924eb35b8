-- ===== src/Query/Total.antt =====
-- pkg/query/query.go: Compile and compileScan return, with a compiled read or an error.
use mathlib.Core.Option
use table_theory.Base.{
  Option, none, some, List, [], ◌∷◌, Text, codes, Result, ok, err, ◌≡◌, refl, ap, map, subst, sym,
}
use table_theory.Expr
use table_theory.Expr.{new_builder_with_converter, Builder, Action}
use table_theory.Expr.Filters.{add_projection, clone, add_key_condition, add_filter_condition}
use table_theory.Expr.Components.{ExpressionComponents, components_of}
use table_theory.Expr.Soundness.Linked.{
  IsLinked, KeepsLinked, KeepsLinked-pure, KeepsLinked-bind, build-IsLinked,
  add_key_condition-KeepsLinked, add_filter_condition-KeepsLinked, add_projection-IsLinked,
  add_group_filter-IsLinked,
}
use table_theory.Query.State.{
  Error, builder_of, Query, Condition, ModelMetadata, Model, new_query, query_builder,
}
use table_theory.Query.Chain.{call}
use table_theory.Query.Chain.Groups.{
  Step, Steps, single, filter_group, or_filter_group, no_steps, then_step, sub_query,
  with_sub_error, add_filter_group, after, run_step, run_steps,
}
use table_theory.Query.Calls.{
  OfBuilder, IsKept, IsValid, builder_of-kept, call-IsValid, new_query-IsValid,
  record_builder_error-IsValid,
}
use table_theory.Query.Keys.{normalized}
use table_theory.Query.Compile.{
  Plan, CompiledQuery, Compiled, compile_operation, add_key_conditions, add_filter_conditions,
  apply_conditions, builder_for, effective_builder, apply_settings, finished, compile_with, compile,
  with_metadata, scan_settings, compile_scan_with, compile_scan,
}

add_key_conditions-Keeps : (cs : List Condition) → KeepsLinked (add_key_conditions cs)
unfolding add_key_conditions
add_key_conditions-Keeps [] = KeepsLinked-pure tt
add_key_conditions-Keeps (c ∷ cs) =
    KeepsLinked-bind (add_key_condition c.field c.operator c.value) (λ _. add_key_conditions cs)
      (add_key_condition-KeepsLinked c.field c.operator c.value) (λ _. add_key_conditions-Keeps cs)

add_filter_conditions-Keeps : (cs : List Condition) → KeepsLinked (add_filter_conditions cs)
unfolding add_filter_conditions
add_filter_conditions-Keeps [] = KeepsLinked-pure tt
add_filter_conditions-Keeps (c ∷ cs) =
    KeepsLinked-bind (add_filter_condition (codes "AND") c.field c.operator c.value)
      (λ _. add_filter_conditions cs)
      (add_filter_condition-KeepsLinked (codes "AND") c.field c.operator c.value)
      (λ _. add_filter_conditions-Keeps cs)

apply_conditions-Keeps : (plan : Plan) → KeepsLinked (apply_conditions plan)
unfolding apply_conditions
apply_conditions-Keeps plan =
    KeepsLinked-bind (add_key_conditions plan.key_conditions)
      (λ _. add_filter_conditions plan.filter_conditions)
      (add_key_conditions-Keeps plan.key_conditions)
      (λ _. add_filter_conditions-Keeps plan.filter_conditions)

builder_for-IsLinked :
    (q : Query) (b : Option Builder) → OfBuilder IsLinked b → IsLinked (builder_for q b)
unfolding query_builder clone new_builder_with_converter
builder_for-IsLinked q none h = refl
builder_for-IsLinked q (some b) h = h

-- The read is built, or the error of a condition is returned.
finished-returns :
    (settings : ExpressionComponents → CompiledQuery) (projection : List Text) (b : Builder)
    (r : Result Expr.Error (Unit {0}))
    → IsLinked b
    → (out : Result Expr.Error CompiledQuery) × (finished settings projection (b, r) ≡ some out)
finished-returns settings projection b (err e) h = (err e, refl)
finished-returns settings projection b (ok _) h =
    let b' = add_projection projection b in
    let (t, e) = build-IsLinked b' (add_projection-IsLinked projection b h) in
    (ok (settings (components_of b' t)), ap (Option.map _) e)

abbrev Returns : Compiled → Type 0
Returns c = (out : Result Expr.Error CompiledQuery) × (c ≡ some out)

compile_with-Returns :
    (m : ModelMetadata) (q : Query) → OfBuilder IsLinked q.builder → Returns (compile_with m q)
unfolding compile_with effective_builder
compile_with-Returns m q h =
    let plan = compile_operation m q in
    let b = builder_for q q.builder in
    let linked = builder_for-IsLinked q q.builder h in
    finished-returns (apply_settings m q plan) q.projection (apply_conditions plan b).0
      (apply_conditions plan b).1 ((apply_conditions-Keeps plan).at b linked)

compile_scan_with-Returns :
    (m : ModelMetadata) (q : Query) → OfBuilder IsLinked q.builder → Returns (compile_scan_with m q)
unfolding compile_scan_with effective_builder
compile_scan_with-Returns m q h =
    let add = add_filter_conditions (map (normalized m) q.conditions) in
    let b = builder_for q q.builder in
    let linked = builder_for-IsLinked q q.builder h in
    finished-returns (scan_settings m q) q.projection (add b).0 (add b).1
      ((add_filter_conditions-Keeps (map (normalized m) q.conditions)).at b linked)

IsLinked-IsKept : IsKept IsLinked
IsLinked-IsKept = record {
  of_new = λ converter. unfold new_builder_with_converter in refl;
  by_filter = λ logical_op field op value b h.
      (add_filter_condition-KeepsLinked logical_op field op value).at b h;
}

-- A query of the model's metadata that can be compiled.
abbrev IsReady : ModelMetadata → Query → Type 0
IsReady m q = IsValid IsLinked (some m) q

abbrev pub Reaches : ModelMetadata → Option Query → Type 0
Reaches m next = (q : Query) × (next ≡ some q) × IsReady m q

module _ (m : ModelMetadata) where
  after-Reaches :
      (step : Option Query) (next : Query → Option Query)
      → Reaches m step
      → ((q : Query) → IsReady m q → Reaches m (next q))
      → Reaches m (after step next)
  after-Reaches none next (q, e, h) k = cc
  after-Reaches (some r) next (q, e, h) k = let same : q ≡ r = cc in k r (subst (IsReady m) same h)

  with_sub_error-IsReady :
      (known : Option Error) (q : Query) → IsReady m q → IsReady m (with_sub_error known q)
  with_sub_error-IsReady none q h = h
  with_sub_error-IsReady (some e) q h = record_builder_error-IsValid e q h

  sub_query-IsReady : (q : Query) → IsReady m q → IsReady m (sub_query q)
  unfolding sub_query query_builder new_query new_builder_with_converter
  sub_query-IsReady q h = record {
    same_metadata = h.same_metadata;
    builder_holds = refl;
    plain_conditions = tt;
  }

  add_filter_group-Reaches :
      (operator : Text) (q sub : Query)
      → IsReady m q
      → IsReady m sub
      → Reaches m (add_filter_group operator q sub)
  unfolding add_filter_group
  add_filter_group-Reaches operator q sub h hs =
      let linked = builder_of-kept IsLinked-IsKept sub sub.builder hs.builder_holds in
      let (t, e) = build-IsLinked (builder_of sub sub.builder) linked in
      let components = components_of (builder_of sub sub.builder) t in
      let held = builder_of-kept IsLinked-IsKept q q.builder h.builder_holds in
      let r = with_sub_error-IsReady sub.builder_err q h in
      (
        _,
        ap (Option.map _) e,
        record {
          same_metadata = r.same_metadata;
          builder_holds =
              add_group_filter-IsLinked operator components (builder_of q q.builder) held;
          plain_conditions = r.plain_conditions;
        },
      )

  mutual
    unfolding run_step

    run_step-Reaches : (step : Step) (q : Query) → IsReady m q → Reaches m (run_step step q)
    run_step-Reaches (single c) q h = (call c q, refl, call-IsValid IsLinked-IsKept c q h)
    run_step-Reaches (filter_group fn) q h =
        after-Reaches (run_steps fn (sub_query q)) (add_filter_group (codes "AND") q)
          (run_steps-Reaches fn (sub_query q) (sub_query-IsReady q h))
          (λ sub. add_filter_group-Reaches (codes "AND") q sub h)
    run_step-Reaches (or_filter_group fn) q h =
        after-Reaches (run_steps fn (sub_query q)) (add_filter_group (codes "OR") q)
          (run_steps-Reaches fn (sub_query q) (sub_query-IsReady q h))
          (λ sub. add_filter_group-Reaches (codes "OR") q sub h)

    run_steps-Reaches : (steps : Steps) (q : Query) → IsReady m q → Reaches m (run_steps steps q)
    run_steps-Reaches no_steps q h = (q, refl, h)
    run_steps-Reaches (then_step step steps) q h =
        after-Reaches (run_step step q) (λ next. run_steps steps next) (run_step-Reaches step q h)
          (λ next. run_steps-Reaches steps next)

-- Any steps on a new query of a model's metadata return, be they calls that chain or groups of
-- filters, which may hold groups and reuse the placeholders of the query; and on the query that they
-- reach, Compile and compileScan return a compiled read or an error. None of these panics.
pub compile_total :
    (model : Option Model) (m : ModelMetadata) (steps : Steps)
    → (q : Query) × (run_steps steps (new_query model (some m)) ≡ some q)
      × ((out : Result Expr.Error CompiledQuery) × (compile q ≡ some out))
      × ((out : Result Expr.Error CompiledQuery) × (compile_scan q ≡ some out))
unfolding compile compile_scan
compile_total model m steps =
    let (q, e, h) =
      run_steps-Reaches m steps (new_query model (some m)) (new_query-IsValid model) in
    (
      q,
      e,
      subst (λ known. Returns (with_metadata compile_with known q)) (sym h.same_metadata)
          (compile_with-Returns m q h.builder_holds),
      subst (λ known. Returns (with_metadata compile_scan_with known q)) (sym h.same_metadata)
          (compile_scan_with-Returns m q h.builder_holds),
    )
