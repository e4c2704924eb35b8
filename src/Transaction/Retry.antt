-- ===== src/Transaction/Retry.antt =====
-- pkg/transaction/builder.go: ExecuteWithContext, the retries and the translation of the errors of
-- DynamoDB. The translation of one operation, buildWriteItem, is an argument, and so is the client,
-- with the state behind it. Of a model no type name is reported here.
use table_theory.Base.{
  ℕ, suc, Bool, true, false, Option, none, some, List, [], ◌∷◌, ◌||◌, Text, String, codes, Result,
  ok, err, ◌>>=◌, if◌then◌else◌, text_eq, get_elem?, all,
}
use table_theory.Transaction.{
  Registry, Builder, TransactOperation, Error, message, other, canceled, transaction_error, name_of,
  BaseError, transaction_failed, condition_failed,
}

-- types.CancellationReason: the code may be nil, and a nil message counts as empty.
pub record Reason : Type 0 where
  pub code : Option Text
  pub text : Text

-- TransactionCanceledException with its reasons, or another error
pub data ClientError : Type 0 where
  canceled_by : List Reason → ClientError
  failed : Text → ClientError

unfoldable pub is_retryable_reason : Text → Bool
unfolding text_eq
is_retryable_reason code =
    text_eq code (codes "TransactionConflict")
    || (text_eq code (codes "ProvisionedThroughputExceeded")
        || (text_eq code (codes "ThrottlingError") || text_eq code (codes "InternalServerError")))

abbrev pub allows_retry : Option Text → Bool
allows_retry none = true
allows_retry (some code) = is_retryable_reason code

-- The name of the operation at an index, for the report of an error.
abbrev pub operation_name : {registry : Registry} → Option (TransactOperation registry) → String
operation_name none = "unknown"
operation_name (some op) = name_of op.typ

unfoldable pub base_error : Text → BaseError
unfolding text_eq
base_error code =
    if text_eq code (codes "ConditionalCheckFailed") then condition_failed else transaction_failed

-- The waits between attempts, in milliseconds
abbrev pub retry_schedule : List ℕ
retry_schedule = 100 ∷ 200 ∷ 400 ∷ 800 ∷ []

-- What ExecuteWithContext fills in of dynamodb.TransactWriteItemsInput
pub record Input (Item : Type 0) : Type 0 where
  pub items : List Item
  pub token : Text

-- interface dynamoTransactAPI, as a function of the state behind it
abbrev pub Api : Type 0 → Type 0 → Type 0
Api Item Store = Input Item → Store → Store × Result ClientError (Unit {0})

-- What follows on a failed attempt: the translated error, or the next attempt after a wait that
-- the context does not end.
abbrev pub on_failure :
    {Store : Type 0}
    → Store
    → Bool × Error
    → Option Error
    → (Store → Store × Result Error (Unit {0}))
    → Store × Result Error (Unit {0})
on_failure s (false, translated) ended next = (s, err translated)
on_failure s (true, translated) (some e) next = (s, err e)
on_failure s (true, translated) none next = next s

abbrev pub on_answer :
    {Store : Type 0}
    → (ClientError → Bool × Error)
    → (Store → Option Error)
    → (Store → Store × Result Error (Unit {0}))
    → Store × Result ClientError (Unit {0})
    → Store × Result Error (Unit {0})
on_answer translate ended next (s, ok done) = (s, ok tt)
on_answer translate ended next (s, err e) = on_failure s (translate e) (ended s) next

abbrev pub last_answer :
    {Store : Type 0}
    → (ClientError → Bool × Error)
    → Store × Result ClientError (Unit {0})
    → Store × Result Error (Unit {0})
last_answer translate (s, ok done) = (s, ok tt)
last_answer translate (s, err e) = (s, err (translate e).1)

module _ (registry : Registry) where
  -- buildTransactionError from an index on
  unfoldable pub report : List (TransactOperation registry) → ℕ → List Reason → Error
  unfolding base_error
  report operations idx [] = canceled
  report operations idx (reason ∷ reasons) =
      reported operations idx reason reason.code (report operations (suc idx) reasons)
    where
      reported : List (TransactOperation registry) → ℕ → Reason → Option Text → Error → Error
      reported operations idx reason none rest = rest
      reported operations idx reason (some code) rest =
          transaction_error idx (operation_name (get_elem? operations idx)) reason.text
            (base_error code)

  unfoldable pub build_transaction_error : Builder registry → List Reason → Error
  unfolding report
  build_transaction_error b reasons = report b.operations 0 reasons

  unfoldable pub translate_error : Builder registry → ClientError → Bool × Error
  unfolding is_retryable_reason build_transaction_error
  translate_error b (canceled_by reasons) =
      (all (λ reason. allows_retry reason.code) reasons, build_transaction_error b reasons)
  translate_error b (failed e) = (false, other e)

  -- executeWithRetry with the waits that are left. `ended` is the context's error where it ends
  -- a wait.
  unfoldable pub attempts :
      {Item Store : Type 0}
      → Api Item Store
      → (ℕ → Store → Option Error)
      → Builder registry
      → Input Item
      → List ℕ
      → Store
      → Store × Result Error (Unit {0})
  unfolding translate_error
  attempts api ended b input [] s = last_answer (translate_error b) (api input s)
  attempts api ended b input (wait ∷ waits) s =
      on_answer (translate_error b) (ended wait) (attempts api ended b input waits) (api input s)

  unfoldable pub execute_with_retry :
      {Item Store : Type 0}
      → Result Error (Api Item Store)
      → (ℕ → Store → Option Error)
      → Builder registry
      → Input Item
      → Store
      → Store × Result Error (Unit {0})
  unfolding attempts
  execute_with_retry (err e) ended b input s = (s, err e)
  execute_with_retry (ok api) ended b input s = attempts api ended b input retry_schedule s

  -- materializeOperations from an index on
  unfoldable pub materialize :
      {Item : Type 0}
      → (ℕ → TransactOperation registry → Result Error Item)
      → ℕ
      → List (TransactOperation registry)
      → Result Error (List Item)
  materialize build_write_item idx [] = ok []
  materialize build_write_item idx (op ∷ operations) = do
    item ← build_write_item idx op
    items ← materialize build_write_item (suc idx) operations
    ok (item ∷ items)

  -- A builder is ready for reuse after a success, and as it was after a failure.
  abbrev pub conclude :
      {Store : Type 0}
      → Builder registry
      → Store × Result Error (Unit {0})
      → Store × Builder registry × Result Error (Unit {0})
  conclude b (s, ok done) = (s, record b { operations = [] }, ok tt)
  conclude b (s, err e) = (s, b, err e)

  abbrev pub commit :
      {Item Store : Type 0}
      → Result Error (List Item)
      → (List Item → Store → Store × Result Error (Unit {0}))
      → Builder registry
      → Store
      → Store × Builder registry × Result Error (Unit {0})
  commit (err e) send b s = (s, b, err e)
  commit (ok items) send b s = conclude b (send items s)

  abbrev pub unless_empty :
      {Store : Type 0}
      → List (TransactOperation registry)
      → Store × Builder registry × Result Error (Unit {0})
      → Builder registry
      → Store
      → Store × Builder registry × Result Error (Unit {0})
  unless_empty [] rest b s = (s, b, err (message "transaction has no operations"))
  unless_empty (op ∷ operations) rest b s = rest

  abbrev pub unless_failed :
      {Store : Type 0}
      → Option Error
      → Store × Builder registry × Result Error (Unit {0})
      → Builder registry
      → Store
      → Store × Builder registry × Result Error (Unit {0})
  unless_failed (some e) rest b s = (s, b, err e)
  unless_failed none rest b s = unless_empty b.operations rest b s

  -- ExecuteWithContext, with the client or the error for its lack, the request token, and the
  -- translation of one operation
  unfoldable pub execute_with_context :
      {Item Store : Type 0}
      → Result Error (Api Item Store)
      → (ℕ → Store → Option Error)
      → (ℕ → TransactOperation registry → Result Error Item)
      → Text
      → Builder registry
      → Store
      → Store × Builder registry × Result Error (Unit {0})
  unfolding materialize execute_with_retry
  execute_with_context client ended build_write_item token b s =
      unless_failed b.err
        (commit (materialize build_write_item 0 b.operations)
          (λ items. execute_with_retry client ended b (record { items = items; token = token })) b
          s)
        b s
