-- ===== src/Query/Settings.antt =====
-- applyCompiledSettings and compileScan (pkg/query/query.go): the parameters of a compiled read.
use mathlib.Core.Option
use table_theory.Base.{
  ◌^◌, ◌<◌, ◌-◌, Bool, true, Option, none, some, List, [], Text, text_eq, text_eq_iff, Result, ok,
  err, ◌≡◌, refl, sym, ◌⊎◌, inl, inr, arith, ltb, Bool-cases, ◌&&◌, if◌then◌else◌, subst,
  and-eq_true,
}
use table_theory.Base.Int.{ℤ, pos, negsuc, ◌≤ℤ◌}
use table_theory.Expr
use table_theory.Expr.{Builder}
use table_theory.Expr.Components.{ExpressionComponents, build}
use table_theory.Expr.Filters.{add_projection}
use table_theory.Query.State.{Query, ModelMetadata}
use table_theory.Query.Compile.{
  CompiledQuery, Plan, compile, compile_with, compile_scan, compile_scan_with, with_metadata,
  finished, apply_settings, scan_settings, compiled_limit, clamp_int_to_int32, compile_operation,
  apply_conditions, effective_builder,
}

finished-ok :
    (settings : ExpressionComponents → CompiledQuery) (projection : List Text) (b : Builder)
    (r : Result Expr.Error (Unit {0})) (c : CompiledQuery)
    → finished settings projection (b, r) ≡ some (ok c)
    → (components : ExpressionComponents) × (c ≡ settings components)
finished-ok settings projection b (err e) c h = cc
finished-ok settings projection b (ok _) c h = go (build (add_projection projection b)) h
  where
    go :
        (o : Option ExpressionComponents)
        → Option.map {B = Result Expr.Error CompiledQuery}
            (λ components. ok (settings components))
            o
          ≡ some (ok c)
        → (components : ExpressionComponents) × (c ≡ settings components)
    go none e = cc
    go (some components) e = (components, cc)

-- A limit of a request: none, or one within the range of an int32, above zero and up to what was
-- asked for.
abbrev pub LimitFits : ℤ → Option ℤ → Type 0
LimitFits asked none = asked ≤ℤ pos 0
LimitFits asked (some (pos n)) = (0 < n) × (n < 2 ^ 31) × (pos n ≤ℤ asked)
LimitFits asked (some (negsuc n)) = ⊥

compiled_limit-LimitFits : (asked : ℤ) → LimitFits asked (compiled_limit asked)
unfolding clamp_int_to_int32
compiled_limit-LimitFits (negsuc n) = omega arith
compiled_limit-LimitFits (pos n) = elim (Bool-cases (ltb 0 n)) [
  | inr zero_or_less ↦ rw zero_or_less (ground arith)
  | inl above ↦ elim (Bool-cases (ltb (2 ^ 31 - 1) n)) [
    | inl clamped ↦ rw (above, clamped) (ground arith)
    | inr fits ↦ rw (above, fits) (ground arith)
  ]
]

-- What the settings of a read of a query promise.
abbrev Promises : Query → CompiledQuery → Type 0
Promises q c =
    LimitFits q.limit c.limit
    × (c.exclusive_start_key ≡ q.exclusive)
    × (c.consistent_read ≡ some true → (c.index_name ≡ []) × (q.consistent_read ≡ true))

consistent_only :
    (asked : Bool) (name : Text)
    → (if asked && text_eq name [] then some true else none) ≡ some true
    → (name ≡ []) × (asked ≡ true)
consistent_only asked name h = elim (Bool-cases (asked && text_eq name [])) [
  | inl both ↦
      let (wanted, empty) = and-eq_true asked (text_eq name []) both in
      ((text_eq_iff name []).0 empty, wanted)
  | inr other ↦ cc (rw other at h)
]

apply_settings-Promises :
    (m : ModelMetadata) (q : Query) (plan : Plan) (components : ExpressionComponents)
    → Promises q (apply_settings m q plan components)
unfolding apply_settings
apply_settings-Promises m q plan components =
    (compiled_limit-LimitFits q.limit, refl, consistent_only q.consistent_read plan.index_name)

scan_settings-Promises :
    (m : ModelMetadata) (q : Query) (components : ExpressionComponents)
    → Promises q (scan_settings m q components)
unfolding scan_settings
scan_settings-Promises m q components =
    (compiled_limit-LimitFits q.limit, refl, consistent_only q.consistent_read q.index)

compiled-Promises :
    (known : Option ModelMetadata) (q : Query) (c : CompiledQuery)
    → with_metadata compile_with known q ≡ some (ok c)
    → Promises q c
unfolding compile_with
compiled-Promises none q c h = cc
compiled-Promises (some m) q c h =
    let plan = compile_operation m q in
    let done = apply_conditions plan (effective_builder q) in
    let (components, e) = finished-ok (apply_settings m q plan) q.projection done.0 done.1 c h in
    subst (Promises q) (sym e) (apply_settings-Promises m q plan components)

scanned-Promises :
    (known : Option ModelMetadata) (q : Query) (c : CompiledQuery)
    → with_metadata compile_scan_with known q ≡ some (ok c)
    → Promises q c
unfolding compile_scan_with
scanned-Promises none q c h = cc
scanned-Promises (some m) q c h =
    let (components, e) = finished-ok (scan_settings m q) q.projection _ _ c h in
    subst (Promises q) (sym e) (scan_settings-Promises m q components)

-- A read that Compile or compileScan returns has no limit when the query's is not above zero, and
-- otherwise one above zero, below 2^31 and no more than the query's; it starts after the query's key;
-- and it is consistent only where the query asks for that and no index is read.
pub compile-settings :
    (q : Query) (c : CompiledQuery)
    → (compile q ≡ some (ok c)) ⊎ (compile_scan q ≡ some (ok c))
    → LimitFits q.limit c.limit
      × (c.exclusive_start_key ≡ q.exclusive)
      × (c.consistent_read ≡ some true → (c.index_name ≡ []) × (q.consistent_read ≡ true))
unfolding compile compile_scan
compile-settings q c (inl read) = compiled-Promises q.metadata q c read
compile-settings q c (inr scan) = scanned-Promises q.metadata q c scan
