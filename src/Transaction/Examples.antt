-- ===== src/Transaction/Examples.antt =====
-- A transaction on a scripted client, and the theorems about transactions there.
use table_theory.Base.{
  text_eq, ℕ, suc, ◌+◌, ◌≤◌, false, Option, none, some, List, [], ◌∷◌, ◌++◌, codes, length,
  get_elem?, ◌≡◌, refl, arith, Result, ok, err, if◌then◌else◌, ◌==◌,
}
use table_theory.Transaction.{
  Registry, Builder, TransactOperation, Error, message, other, transaction_error,
  transaction_failed, condition_failed,
}
use table_theory.Transaction.Retry.{
  Reason, ClientError, canceled_by, failed, Input, Api, operation_name, build_transaction_error,
  translate_error, execute_with_context,
}
use table_theory.Transaction.Scheduling.{
  Call, put_call, delete_call, update_call, run, run-extends, run-failed,
}
use table_theory.Transaction.Cancellation.{build_transaction_error-first, translate_error-None}
use table_theory.Transaction.Execution.{
  executed, execute_with_context-sends, execute_with_context-ok, execute_with_context-err,
}

-- Models are numbers, and zero is not registered.
abbrev registry : Registry
registry = record {
  Model = ℕ;
  Metadata = ℕ;
  UpdateFn = Unit {0};
  register = λ n. if n == 0 then err (other (codes "unregistered")) else ok tt;
  get_metadata = λ n. ok n;
}

abbrev empty : Builder registry
empty = record { err = none; operations = [] }

abbrev calls : List (Call registry)
calls = put_call (some 1) [] ∷ delete_call (some 2) [] ∷ []

abbrev two : Builder registry
two = run registry calls empty

two_length : length two.operations ≡ 2
unfolding run
two_length = refl

run-extends_example :
    (length two.operations ≤ 25)
    × ((more : List (TransactOperation registry)) × (two.operations ≡ [] ++ more))
run-extends_example = run-extends registry calls empty (omega arith)

abbrev broken : Builder registry
broken = run registry (update_call (some 1) [] [] ∷ put_call (some 0) [] ∷ []) empty

broken_err : broken.err ≡ some (message "transaction update requires at least one field")
unfolding run
broken_err = refl

run-failed_example : run registry calls broken ≡ broken
run-failed_example = run-failed registry calls broken _ broken_err

-- The second operation fails on its condition.
abbrev fine : Reason
fine = record { code = some (codes "None"); text = [] }

abbrev on_condition : Reason
on_condition = record { code = some (codes "ConditionalCheckFailed"); text = codes "held" }

abbrev uncoded : Reason
uncoded = record { code = none; text = [] }

build_transaction_error-first_example :
    build_transaction_error registry two (uncoded ∷ on_condition ∷ [])
    ≡ transaction_error 1
        (operation_name (get_elem? two.operations 1))
        (codes "held")
        condition_failed
unfolding text_eq
build_transaction_error-first_example =
    build_transaction_error-first registry two (uncoded ∷ []) on_condition []
      (codes "ConditionalCheckFailed") (refl, tt) refl

translate_error-None_example :
    translate_error registry two (canceled_by (fine ∷ on_condition ∷ [])) ≡ (
      false,
      transaction_error 0 (operation_name (get_elem? two.operations 0)) [] transaction_failed,
    )
translate_error-None_example = translate_error-None registry two fine (on_condition ∷ []) refl

-- A client that gives the answers of a script, then succeeds, and counts its calls.
abbrev Script : Type 0
Script = List (Result ClientError (Unit {0})) × ℕ

scripted : Api ℕ Script
scripted input ([], n) = (([], suc n), ok tt)
scripted input (answer ∷ answers, n) = ((answers, suc n), answer)

scripted-counts : (input : Input ℕ) (s : Script) → (scripted input s).0.1 ≡ suc s.1
unfolding scripted
scripted-counts input ([], n) = refl
scripted-counts input (answer ∷ answers, n) = refl

abbrev conflict : Result ClientError (Unit {0})
conflict = err (canceled_by (record { code = some (codes "TransactionConflict"); text = [] } ∷ []))

abbrev write_item : ℕ → TransactOperation registry → Result Error ℕ
write_item idx op = ok op.model

abbrev never : ℕ → Script → Option Error
never wait s = none

abbrev start : Script
start = (conflict ∷ conflict ∷ [], 0)

execute_with_context-sends_example :
    (executed registry scripted never write_item (codes "t") two start).0.1 ≤ 0 + 5
execute_with_context-sends_example =
    execute_with_context-sends registry scripted never write_item (codes "t") (λ s. s.1) two start
      scripted-counts

succeeds : (executed registry scripted never write_item (codes "t") two start).2 ≡ ok tt
unfolding execute_with_context run scripted
succeeds = refl

-- The client has been called.
abbrev Called : Script → Type 0
Called s = 1 ≤ s.1

scripted-Called :
    (input : Input ℕ) (s : Script) → (scripted input s).1 ≡ ok tt → Called (scripted input s).0
scripted-Called input s h = omega (arith, scripted-counts input s)

execute_with_context-ok_example :
    Called (executed registry scripted never write_item (codes "t") two start).0
    × ((executed registry scripted never write_item (codes "t") two start).1
        ≡ record two { operations = [] })
execute_with_context-ok_example =
    execute_with_context-ok registry scripted never write_item (codes "t") Called two start
      scripted-Called succeeds

abbrev outage : Script
outage = (err (failed (codes "reset")) ∷ [], 0)

fails :
    (executed registry scripted never write_item (codes "t") two outage).2
    ≡ err (other (codes "reset"))
unfolding execute_with_context run scripted
fails = refl

execute_with_context-err_example :
    (executed registry scripted never write_item (codes "t") two outage).1 ≡ two
execute_with_context-err_example =
    execute_with_context-err registry scripted never write_item (codes "t") two outage _ fails
