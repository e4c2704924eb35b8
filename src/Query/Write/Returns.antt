-- ===== src/Query/Write/Returns.antt =====
-- buildConditionExpression (pkg/query/query.go) returns, and keeps the builder sound.
use mathlib.Core.Option
use table_theory.Base.{
  Bool, true, false, Option, none, some, List, [], ◌∷◌, codes, text_eq, Result, ok, err, ◌≡◌, refl,
  ap, inl, inr, Bool-cases, ◌&&◌, not, ◌||◌,
}
use table_theory.Expr.{Builder}
use table_theory.Expr.Filters.{add_condition_expression}
use table_theory.Expr.Components.{components_of}
use table_theory.Expr.Soundness.{IsSound, Follows, Follows-refl, Follows-trans}
use table_theory.Expr.Soundness.Operations.{add_condition_expression_with_op-Keeps}
use table_theory.Expr.Soundness.Runs.{build_total}
use table_theory.Query.State.{
  Query, Condition, ModelMetadata, Error, reject_encrypted_condition_field,
}
use table_theory.Query.Keys.{normalize_condition}
use table_theory.Query.Write.{
  Step, after, rejected_or, condition_step, add_write_conditions, is_key_field, where_conditions,
  needs_metadata, add_where_conditions, default_condition, add_default_condition, or_default,
  optional_where, no_raw, add_conditions, WriteCondition, merged_components, built,
  build_condition_expression,
}

-- The step keeps the builder sound and its values, whether it succeeds or fails.
abbrev StepKeeps : {A : Type 0} → Step A → Type 0
StepKeeps m = (b : Builder) → IsSound b → Follows b (m b).0

after-Follows :
    {A B : Type 0} (b c : Builder) (r : Result Error A) (next : A → Step B)
    → Follows b c
    → ((a : A) → StepKeeps (next a))
    → Follows b (after (c, r) next).0
after-Follows b c (ok a) next f keeps = Follows-trans f (keeps a c f.sound)
after-Follows b c (err e) next f keeps = f

rejected_or-Keeps :
    {A : Type 0} (rejected : Option Error) (m : Step A)
    → StepKeeps m
    → StepKeeps (rejected_or rejected m)
rejected_or-Keeps none m keeps b h = keeps b h
rejected_or-Keeps (some e) m keeps b h = Follows-refl h

condition_step-Keeps : (cond : Condition) → StepKeeps (condition_step cond)
unfolding condition_step add_condition_expression
condition_step-Keeps cond b h =
    (add_condition_expression_with_op-Keeps (codes "AND") cond.field cond.operator cond.value).at b
      h

add_write_conditions-Keeps :
    (metadata : Option ModelMetadata) (cs : List Condition) (has : Bool)
    → StepKeeps (add_write_conditions metadata cs has)
unfolding add_write_conditions
add_write_conditions-Keeps metadata [] has b h = Follows-refl h
add_write_conditions-Keeps metadata (cond ∷ cs) has b h =
    elim (Bool-cases (text_eq cond.field [])) [
      | inl empty ↦ rw empty (Follows-refl h)
      | inr given ↦ rw given (
          rejected_or-Keeps (reject_encrypted_condition_field metadata cond.field) _
            (λ c s.
              after-Follows c (condition_step cond c).0 (condition_step cond c).1 _
                (condition_step-Keeps cond c s) λ _. add_write_conditions-Keeps metadata cs true)
            b h)
    ]

where_conditions-Keeps :
    (m : ModelMetadata) (skip : Bool) (cs : List Condition) (has : Bool)
    → StepKeeps (where_conditions m skip cs has)
unfolding where_conditions
where_conditions-Keeps m skip [] has b h = Follows-refl h
where_conditions-Keeps m skip (cond ∷ cs) has b h =
    let n = normalize_condition (some m) cond in
    rejected_or-Keeps (reject_encrypted_condition_field (some m) cond.field) _
      (λ c s. elim (Bool-cases (skip && is_key_field (some m) m.primary_key n)) [
        | inl skipped ↦ rw skipped (where_conditions-Keeps m skip cs has c s)
        | inr added ↦ rw added (
            after-Follows c (condition_step n.condition c).0 (condition_step n.condition c).1 _
              (condition_step-Keeps n.condition c s) λ _. where_conditions-Keeps m skip cs true)
      ])
      b h

needs_metadata-Keeps :
    {A : Type 0} (known : Option ModelMetadata) (m : ModelMetadata → Step A)
    → ((meta : ModelMetadata) → StepKeeps (m meta))
    → StepKeeps (needs_metadata known m)
needs_metadata-Keeps none m keeps b h = Follows-refl h
needs_metadata-Keeps (some meta) m keeps b h = keeps meta b h

add_where_conditions-Keeps : (q : Query) (skip : Bool) → StepKeeps (add_where_conditions q skip)
unfolding add_where_conditions
add_where_conditions-Keeps q skip =
    needs_metadata-Keeps q.metadata _ λ m. where_conditions-Keeps m skip q.conditions false

default_condition-Keeps : (m : ModelMetadata) → StepKeeps (default_condition m)
default_condition-Keeps m b h = elim (Bool-cases (text_eq m.primary_key.partition_key [])) [
  | inl empty ↦ rw empty (Follows-refl h)
  | inr given ↦ rw given (condition_step-Keeps _ b h)
]

or_default-Keeps :
    (q : Query) (default_if_empty has : Bool) → StepKeeps (or_default q default_if_empty has)
unfolding add_default_condition
or_default-Keeps q default_if_empty has b h =
    elim (Bool-cases (default_if_empty && (not has && no_raw q.raw_condition_expressions))) [
      | inl default ↦
          rw default (needs_metadata-Keeps q.metadata default_condition default_condition-Keeps b h)
      | inr given ↦ rw given (Follows-refl h)
    ]

optional_where-Keeps :
    (q : Query) (include_where skip : Bool) → StepKeeps (optional_where q include_where skip)
optional_where-Keeps q true skip b h = add_where_conditions-Keeps q skip b h
optional_where-Keeps q false skip b h = Follows-refl h

add_conditions-Keeps :
    (q : Query) (include_where skip default_if_empty : Bool)
    → StepKeeps (add_conditions q include_where skip default_if_empty)
unfolding add_conditions
add_conditions-Keeps q include_where skip default_if_empty b h =
    let written = add_write_conditions q.metadata q.write_conditions false b in
    after-Follows b written.0 written.1 _
      (add_write_conditions-Keeps q.metadata q.write_conditions false b h)
      λ has c s.
        let found = optional_where q include_where skip c in
        after-Follows c found.0 found.1 _ (optional_where-Keeps q include_where skip c s)
          λ added. or_default-Keeps q default_if_empty (has || added)

built-some :
    (q : Query) (b c : Builder) (r : Result Error (Unit {0}))
    → Follows b c
    → Follows b (built q (c, r)).0
      × ((out : Result Error WriteCondition) × ((built q (c, r)).1 ≡ some out))
built-some q b c (err e) f = (f, (err e, refl))
built-some q b c (ok _) f =
    let (t, e) = build_total c f.sound in
    (f, (merged_components q (components_of c t), ap (Option.map _) e))

-- On a builder that is sound, buildConditionExpression returns an expression or an error, and leaves
-- a sound builder in which every placeholder has kept its value.
pub build_condition_expression_total :
    (q : Query) (include_where skip_keys default_if_empty : Bool) (b : Builder)
    → IsSound b
    → let out = build_condition_expression q include_where skip_keys default_if_empty b in
      Follows b out.0 × ((r : Result Error WriteCondition) × (out.1 ≡ some r))
unfolding build_condition_expression
build_condition_expression_total q include_where skip_keys default_if_empty b h =
    let added = add_conditions q include_where skip_keys default_if_empty b in
    built-some q b added.0 added.1
      (add_conditions-Keeps q include_where skip_keys default_if_empty b h)
