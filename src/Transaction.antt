-- ===== src/Transaction.antt =====
-- pkg/transaction/builder.go: the transaction builder, its operations and the methods that schedule
-- them. Models, their metadata and the update functions are types of the caller, and the model
-- registry (pkg/model/registry.go), which reads models by reflection, is an argument.
pub mod Retry
pub mod Scheduling
pub mod Cancellation
pub mod Execution
mod Examples
use table_theory.Base.{
  ℕ, Bool, true, false, Option, none, some, List, [], ◌∷◌, ◌++◌, ◌>>=◌, ◌>>◌, Text, String, codes,
  Assoc, Result, ok, err, if◌then◌else◌, ltb, leb, length,
}
use table_theory.Validation.Value.{Value, nil_value}

-- struct core.TransactCondition (pkg/core/interfaces.go)
pub record TransactCondition : Type 0 where
  pub kind : Text
  pub field : Text
  pub operator : Text
  pub value : Value
  pub expression : Text
  pub values : Assoc Value

pub data OperationType : Type 0 where
  op_put op_create op_update op_update_with_builder op_delete op_condition_check : OperationType

-- operationType.String
abbrev pub name_of : OperationType → String
name_of op_put = "Put"
name_of op_create = "Create"
name_of op_update = "Update"
name_of op_update_with_builder = "UpdateWithBuilder"
name_of op_delete = "Delete"
name_of op_condition_check = "ConditionCheck"

-- customerrors.ErrTransactionFailed and ErrConditionFailed
pub data BaseError : Type 0 where
  transaction_failed condition_failed : BaseError

pub data Error : Type 0 where
  message : String → Error
  -- An error of the registry, of an operation's translation, of the client or of the context.
  other : Text → Error
  -- fmt.Errorf("transaction canceled: %w", err)
  canceled : Error
  -- customerrors.TransactionError with the operation's index and name, and the reason's message
  transaction_error : ℕ → String → Text → BaseError → Error

abbrev pub max_transact_operations : ℕ
max_transact_operations = 25

-- The types of the caller and the methods of model.Registry in use.
pub record Registry : Type 1 where
  pub Model : Type 0
  pub Metadata : Type 0
  pub UpdateFn : Type 0
  pub register : Model → Result Error (Unit {0})
  pub get_metadata : Model → Result Error Metadata

-- struct transactOperation
pub record TransactOperation (registry : Registry) : Type 0 where
  pub typ : OperationType
  pub model : registry.Model
  pub metadata : registry.Metadata
  pub fields : List Text
  pub update_fn : Option registry.UpdateFn
  pub conditions : List TransactCondition

-- struct Builder, less its context, client, session and converter
pub record Builder (registry : Registry) : Type 0 where
  pub err : Option Error
  pub operations : List (TransactOperation registry)

abbrev pub primary_key_not_exists : TransactCondition
primary_key_not_exists = record {
  kind = codes "pk_not_exists";
  field = [];
  operator = [];
  value = nil_value;
  expression = [];
  values = [];
}

abbrev pub first_error : Option Error → Error → Option Error
first_error (some e) later = some e
first_error none later = some later

module _ (registry : Registry) where
  abbrev pub Call : Type 0
  Call = Builder registry → Builder registry

  unfoldable pub record_error : Error → Call
  record_error e b = record b { err = first_error b.err e }

  -- The operation with its metadata, or the registry's error.
  abbrev pub registered : registry.Model → Result Error registry.Metadata
  registered model = do registry.register model; registry.get_metadata model

  abbrev pub scheduled :
      OperationType
      → registry.Model
      → List Text
      → Option registry.UpdateFn
      → List TransactCondition
      → Result Error registry.Metadata
      → Call
  scheduled typ model fields update_fn conditions (err e) b = record_error e b
  scheduled typ model fields update_fn conditions (ok metadata) b = record b {
    operations =
        b.operations
        ++ record {
          typ = typ;
          model = model;
          metadata = metadata;
          fields = fields;
          update_fn = update_fn;
          conditions = conditions;
        }
          ∷ [];
  }

  -- addOperation without a recorded error; `none` is a nil model.
  abbrev pub add_model :
      OperationType
      → Option registry.Model
      → List Text
      → Option registry.UpdateFn
      → List TransactCondition
      → Call
  add_model typ none fields update_fn conditions b = record_error (message "model cannot be nil") b
  add_model typ (some model) fields update_fn conditions b =
      if leb max_transact_operations (length b.operations)
      then record_error (message "dynamodb transactions support up to 25 operations") b
      else scheduled typ model fields update_fn conditions (registered model) b

  abbrev pub unless_failed : Option Error → Call → Call
  unless_failed none call b = call b
  unless_failed (some e) call b = b

  unfoldable pub add_operation :
      OperationType
      → Option registry.Model
      → List Text
      → Option registry.UpdateFn
      → List TransactCondition
      → Call
  unfolding record_error
  add_operation typ model fields update_fn conditions b =
      unless_failed b.err (add_model typ model fields update_fn conditions) b

  unfoldable pub put : Option registry.Model → List TransactCondition → Call
  unfolding add_operation
  put model conditions b = add_operation op_put model [] none conditions b

  unfoldable pub create : Option registry.Model → List TransactCondition → Call
  unfolding add_operation
  create model conditions b =
      add_operation op_create model [] none (primary_key_not_exists ∷ conditions) b

  unfoldable pub update : Option registry.Model → List Text → List TransactCondition → Call
  unfolding add_operation record_error
  update model [] conditions b =
      record_error (message "transaction update requires at least one field") b
  update model (field ∷ fields) conditions b =
      add_operation op_update model (field ∷ fields) none conditions b

  unfoldable pub update_with_builder :
      Option registry.Model → Option registry.UpdateFn → List TransactCondition → Call
  unfolding add_operation record_error
  update_with_builder model none conditions b =
      record_error (message "update builder function cannot be nil") b
  update_with_builder model (some f) conditions b =
      add_operation op_update_with_builder model [] (some f) conditions b

  unfoldable pub delete : Option registry.Model → List TransactCondition → Call
  unfolding add_operation
  delete model conditions b = add_operation op_delete model [] none conditions b

  unfoldable pub condition_check : Option registry.Model → List TransactCondition → Call
  unfolding add_operation record_error
  condition_check model [] b =
      record_error (message "condition check requires at least one condition") b
  condition_check model (c ∷ conditions) b =
      add_operation op_condition_check model [] none (c ∷ conditions) b
