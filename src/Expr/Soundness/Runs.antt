-- ===== src/Expr/Soundness/Runs.antt =====
-- Sequences of calls on one builder (internal/expr/builder.go), whatever succeeds or fails among
-- them. AddGroupFilter is apart, in Expr/Groups, and so is AddAdvancedFunction.
use mathlib.Core.Option
use table_theory.Base.{◌-◌, ◌≡◌, refl, Option, some, List, [], ◌∷◌, arith, Text, length, lookup, ap}
use table_theory.Validation.Value.{Value}
use table_theory.Expr.{Builder, ConverterLookup, AttributeValue, new_builder_with_converter}
use table_theory.Expr.Filters.{
  add_key_condition, add_filter_condition, add_condition_expression_with_op, add_projection,
  reset_conditions,
}
use table_theory.Expr.Updates.{
  add_update_set, add_update_add, add_update_remove, add_update_delete, add_update_function,
}
use table_theory.Expr.Components.{components_of, filter_tail, build_filter, build}
use table_theory.Expr.Soundness.{IsSound, IsSound-new_builder, Follows, Follows-refl, Follows-trans}
use table_theory.Expr.Soundness.Operations.{
  add_key_condition-Keeps, add_filter_condition-Keeps, add_condition_expression_with_op-Keeps,
  add_projection-Follows, reset_conditions-Follows, add_update_set-Keeps, add_update_add-Keeps,
  add_update_remove-Keeps, add_update_delete-Keeps, add_update_function-Keeps,
}

-- A call of one of the builder's methods with its arguments.
pub data Call : Type 0 where
  key_condition : Text → Text → Value → Call
  filter : Text → Text → Text → Value → Call
  condition : Text → Text → Text → Value → Call
  projection : List Text → Call
  update_set update_add update_delete : Text → Value → Call
  update_remove : Text → Call
  update_function : Text → Text → List Value → Call
  reset : Call

unfoldable pub perform : Call → Builder → Builder
unfolding add_key_condition add_filter_condition add_condition_expression_with_op add_projection
    add_update_set add_update_add add_update_delete add_update_remove add_update_function
    reset_conditions
perform (key_condition field op value) b = (add_key_condition field op value b).0
perform (filter logical_op field op value) b = (add_filter_condition logical_op field op value b).0
perform (condition logical_op field op value) b =
    (add_condition_expression_with_op logical_op field op value b).0
perform (projection fields) b = add_projection fields b
perform (update_set field value) b = (add_update_set field value b).0
perform (update_add field value) b = (add_update_add field value b).0
perform (update_delete field value) b = (add_update_delete field value b).0
perform (update_remove field) b = (add_update_remove field b).0
perform (update_function field function args) b = (add_update_function field function args b).0
perform reset b = reset_conditions b

unfoldable pub run : List Call → Builder → Builder
unfolding perform
run [] b = b
run (call ∷ calls) b = run calls (perform call b)

pub run_single : (call : Call) (b : Builder) → run (call ∷ []) b ≡ perform call b
unfolding run
run_single call b = refl

perform-Follows : (call : Call) (b : Builder) → IsSound b → Follows b (perform call b)
unfolding perform
perform-Follows (key_condition field op value) b h = (add_key_condition-Keeps field op value).at b h
perform-Follows (filter logical_op field op value) b h =
    (add_filter_condition-Keeps logical_op field op value).at b h
perform-Follows (condition logical_op field op value) b h =
    (add_condition_expression_with_op-Keeps logical_op field op value).at b h
perform-Follows (projection fields) b h = add_projection-Follows fields b h
perform-Follows (update_set field value) b h = (add_update_set-Keeps field value).at b h
perform-Follows (update_add field value) b h = (add_update_add-Keeps field value).at b h
perform-Follows (update_delete field value) b h = (add_update_delete-Keeps field value).at b h
perform-Follows (update_remove field) b h = (add_update_remove-Keeps field).at b h
perform-Follows (update_function field function args) b h =
    (add_update_function-Keeps field function args).at b h
perform-Follows reset b h = reset_conditions-Follows b h

run-Follows : (calls : List Call) (b : Builder) → IsSound b → Follows b (run calls b)
unfolding run
run-Follows [] b h = Follows-refl h
run-Follows (call ∷ calls) b h =
    let first = perform-Follows call b h in
    Follows-trans first (run-Follows calls (perform call b) first.sound)

-- After any calls but AddGroupFilter and AddAdvancedFunction on a sound builder, in any order and
-- whether they succeed or fail, the builder is sound: the counted placeholders above its counters are
-- free, and between any two neighbours of its filters and of its conditions there is a connective.
pub run-IsSound : (calls : List Call) (b : Builder) → IsSound b → IsSound (run calls b)
run-IsSound calls b h = (run-Follows calls b h).sound

-- A value placeholder of a sound builder stands for the same attribute value after any further calls
-- but AddGroupFilter and AddAdvancedFunction.
pub lookup-values-run :
    (calls : List Call) (b : Builder) (p : Text) (v : AttributeValue)
    → IsSound b
    → lookup p b.values ≡ some v
    → lookup p (run calls b).values ≡ some v
lookup-values-run calls b p v h e = (run-Follows calls b h).values_kept p v e

filter_tail_total :
    (conditions operators : List Text)
    → length operators ≡ length conditions
    → (t : Text) × (filter_tail conditions operators ≡ some t)
unfolding filter_tail
filter_tail_total [] operators h = ([], refl)
filter_tail_total (c ∷ conditions) [] h = absurd (omega arith)
filter_tail_total (c ∷ conditions) (op ∷ operators) h =
    let (t, e) = filter_tail_total conditions operators (omega arith) in (_, ap (Option.map _) e)

pub build_filter_total :
    (conditions operators : List Text)
    → length operators ≡ length conditions - 1
    → (t : Text) × (build_filter conditions operators ≡ some t)
unfolding build_filter
build_filter_total [] operators h = ([], refl)
build_filter_total (c ∷ conditions) operators h =
    let (t, e) = filter_tail_total conditions operators (omega arith) in (_, ap (Option.map _) e)

pub build_total : (b : Builder) → IsSound b → (t : Text) × (build b ≡ some (components_of b t))
unfolding build
build_total b sound =
    let (t, e) = build_filter_total b.filter_conditions b.filter_operators sound.filters_linked in
    (t, ap (Option.map _) e)

-- Build never indexes the connectives out of range: after any calls but AddGroupFilter and
-- AddAdvancedFunction on a new builder it returns the components of the builder it stopped at.
pub build-run_total :
    (converter : Option ConverterLookup) (calls : List Call)
    → (filter_expression : Text) × (build (run calls (new_builder_with_converter converter))
        ≡ some (components_of (run calls (new_builder_with_converter converter)) filter_expression))
build-run_total converter calls =
    build_total (run calls (new_builder_with_converter converter))
      (run-IsSound calls _ (IsSound-new_builder converter))
