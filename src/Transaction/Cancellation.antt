-- ===== src/Transaction/Cancellation.antt =====
-- Which operation a cancelled transaction blames (pkg/transaction/builder.go).
use table_theory.Base.{
  if◌then◌else◌, text_eq, ℕ, suc, ◌+◌, false, none, some, List, [], ◌∷◌, ◌++◌, Text, codes,
  get_elem?, length, ◌≡◌, refl, ap, All, arith,
}
use table_theory.Transaction.{
  Registry, Builder, TransactOperation, Error, transaction_error, transaction_failed,
  condition_failed,
}
use table_theory.Transaction.Retry.{
  Reason, canceled_by, is_retryable_reason, operation_name, base_error, report,
  build_transaction_error, translate_error,
}

module _ (registry : Registry) where
  abbrev blame : List (TransactOperation registry) → Reason → Text → ℕ → Error
  blame operations reason code n =
      transaction_error n (operation_name (get_elem? operations n)) reason.text (base_error code)

  report-first :
      (operations : List (TransactOperation registry)) (idx n : ℕ) (before : List Reason)
      (reason : Reason) (after : List Reason) (code : Text)
      → All (λ other. other.code ≡ none) before
      → reason.code ≡ some code
      → idx + length before ≡ n
      → report registry operations idx (before ++ reason ∷ after) ≡ blame operations reason code n
  unfolding report
  report-first operations idx n [] reason after code uncoded h e =
      rw h (ap (blame operations reason code) (omega (arith, e)))
  report-first operations idx n (other ∷ before) reason after code uncoded h e =
      rw uncoded.0 (
        report-first operations (suc idx) n before reason after code uncoded.1 h (omega (arith, e)))

  -- The error of a cancelled transaction blames the operation at the first reason that has a code,
  -- whatever the reasons after it, with the message of that reason; it is a failed condition exactly
  -- when that code is ConditionalCheckFailed.
  pub build_transaction_error-first :
      (b : Builder registry) (before : List Reason) (reason : Reason) (after : List Reason)
      (code : Text)
      → All (λ other. other.code ≡ none) before
      → reason.code ≡ some code
      → build_transaction_error registry b (before ++ reason ∷ after)
        ≡ transaction_error
            (length before)
            (operation_name (get_elem? b.operations (length before)))
            reason.text
            (if text_eq code (codes "ConditionalCheckFailed")
              then condition_failed
              else transaction_failed)
  unfolding build_transaction_error base_error
  build_transaction_error-first b before reason after code uncoded h =
      report-first b.operations 0 (length before) before reason after code uncoded h (omega arith)

  -- DynamoDB gives the code None to the operations that did not fail. Where the first operation is
  -- such a one, a cancelled transaction is never retried, and the error blames the first operation
  -- and is no failed condition, whatever the reasons of the other operations.
  pub translate_error-None :
      (b : Builder registry) (reason : Reason) (reasons : List Reason)
      → reason.code ≡ some (codes "None")
      → translate_error registry b (canceled_by (reason ∷ reasons)) ≡ (
        false,
        transaction_error 0
            (operation_name (get_elem? b.operations 0))
            reason.text
            transaction_failed,
      )
  unfolding translate_error is_retryable_reason build_transaction_error report base_error text_eq
  translate_error-None b reason reasons h = rw h refl
