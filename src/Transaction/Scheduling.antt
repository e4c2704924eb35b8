-- ===== src/Transaction/Scheduling.antt =====
-- Sequences of the scheduling methods of pkg/transaction/builder.go.
use table_theory.Base.{
  false, err, ok, none, some, inl, inr, Bool-cases, length-append, leb, arith, Option, List, [],
  ◌∷◌, ◌++◌, Text, length, ◌≤◌, ◌≡◌, refl, sym, ap, ◌∙◌, Result,
}
use mathlib.Core.List.{append-nil, append_assoc}
use table_theory.Transaction.{
  unless_failed, Registry, Builder, TransactOperation, TransactCondition, OperationType, Error,
  first_error, record_error, scheduled, add_model, registered, add_operation, put, create, update,
  update_with_builder, delete, condition_check, max_transact_operations,
}

-- A call of a scheduling method with its arguments.
pub data Call (registry : Registry) : Type 0 where
  put_call create_call delete_call check_call :
      Option registry.Model → List TransactCondition → Call registry
  update_call : Option registry.Model → List Text → List TransactCondition → Call registry
  builder_call :
      Option registry.Model → Option registry.UpdateFn → List TransactCondition → Call registry

length-room :
    {A : Type 0} (xs : List A) (x : A)
    → leb max_transact_operations (length xs) ≡ false
    → length (xs ++ x ∷ []) ≤ 25
length-room xs x h = ground (arith, h, length-append xs (x ∷ []))

module _ (registry : Registry) where
  unfoldable pub perform : Call registry → Builder registry → Builder registry
  unfolding put create update update_with_builder delete condition_check
  perform (put_call model conditions) b = put registry model conditions b
  perform (create_call model conditions) b = create registry model conditions b
  perform (delete_call model conditions) b = delete registry model conditions b
  perform (check_call model conditions) b = condition_check registry model conditions b
  perform (update_call model fields conditions) b = update registry model fields conditions b
  perform (builder_call model f conditions) b = update_with_builder registry model f conditions b

  unfoldable pub run : List (Call registry) → Builder registry → Builder registry
  unfolding perform
  run [] b = b
  run (call ∷ calls) b = run calls (perform call b)

  -- What a call may do: nothing after an error, and no more than an operation at the end of at most
  -- 24 others.
  record Follows (b c : Builder registry) : Type 0 where
    sticky : (e : Error) → b.err ≡ some e → c ≡ b
    bounded : length b.operations ≤ 25 → length c.operations ≤ 25
    extended : (more : List (TransactOperation registry)) × (c.operations ≡ b.operations ++ more)

  Follows-refl : (b : Builder registry) → Follows b b
  Follows-refl b = record {
    sticky = λ e h. refl;
    bounded = λ h. h;
    extended = ([], sym (append-nil b.operations));
  }

  Follows-trans : (b c d : Builder registry) → Follows b c → Follows c d → Follows b d
  Follows-trans b c d first next = record {
    sticky = λ e h. next.sticky e (ap (λ x. x.err) (first.sticky e h) ∙ h) ∙ first.sticky e h;
    bounded = λ h. next.bounded (first.bounded h);
    extended =
        let (more, e) = first.extended in
        let (rest, f) = next.extended in
        (more ++ rest, f ∙ ap (λ l. l ++ rest) e ∙ append_assoc b.operations more rest);
  }

  record_error-Follows : (e : Error) (b : Builder registry) → Follows b (record_error registry e b)
  unfolding record_error
  record_error-Follows e b = record {
    sticky = λ first h. ap (λ x. record b { err = x }) (ap (λ x. first_error x e) h ∙ sym h);
    bounded = λ h. h;
    extended = ([], sym (append-nil b.operations));
  }

  scheduled-Follows :
      (typ : OperationType) (model : registry.Model) (fields : List Text)
      (f : Option registry.UpdateFn) (conditions : List TransactCondition)
      (r : Result Error registry.Metadata) (b : Builder registry)
      → b.err ≡ none
      → leb max_transact_operations (length b.operations) ≡ false
      → Follows b (scheduled registry typ model fields f conditions r b)
  scheduled-Follows typ model fields f conditions (err e) b clear room = record_error-Follows e b
  scheduled-Follows typ model fields f conditions (ok metadata) b clear room = record {
    sticky = λ e h. absurd (cc (sym clear ∙ h));
    bounded = λ h. length-room b.operations _ room;
    extended = (_, refl);
  }

  add_model-Follows :
      (typ : OperationType) (model : Option registry.Model) (fields : List Text)
      (f : Option registry.UpdateFn) (conditions : List TransactCondition) (b : Builder registry)
      → b.err ≡ none
      → Follows b (add_model registry typ model fields f conditions b)
  add_model-Follows typ none fields f conditions b clear = record_error-Follows _ b
  add_model-Follows typ (some model) fields f conditions b clear =
      elim (Bool-cases (leb max_transact_operations (length b.operations))) [
        | inl full ↦ rw full (record_error-Follows _ b)
        | inr room ↦ rw room (
            scheduled-Follows typ model fields f conditions (registered registry model) b clear
              room)
      ]

  add_operation-Follows :
      (typ : OperationType) (model : Option registry.Model) (fields : List Text)
      (f : Option registry.UpdateFn) (conditions : List TransactCondition) (b : Builder registry)
      → Follows b (add_operation registry typ model fields f conditions b)
  unfolding add_operation
  add_operation-Follows typ model fields f conditions b = go b.err refl
    where
      go :
          (failed : Option Error)
          → b.err ≡ failed
          → Follows b
              (unless_failed registry failed (add_model registry typ model fields f conditions) b)
      go none clear = add_model-Follows typ model fields f conditions b clear
      go (some e) failed = Follows-refl b

  perform-Follows : (call : Call registry) (b : Builder registry) → Follows b (perform call b)
  unfolding perform put create update update_with_builder delete condition_check
  perform-Follows (put_call model conditions) b = add_operation-Follows _ model _ _ _ b
  perform-Follows (create_call model conditions) b = add_operation-Follows _ model _ _ _ b
  perform-Follows (delete_call model conditions) b = add_operation-Follows _ model _ _ _ b
  perform-Follows (check_call model []) b = record_error-Follows _ b
  perform-Follows (check_call model (c ∷ conditions)) b = add_operation-Follows _ model _ _ _ b
  perform-Follows (update_call model [] conditions) b = record_error-Follows _ b
  perform-Follows (update_call model (field ∷ fields) conditions) b =
      add_operation-Follows _ model _ _ _ b
  perform-Follows (builder_call model none conditions) b = record_error-Follows _ b
  perform-Follows (builder_call model (some f) conditions) b = add_operation-Follows _ model _ _ _ b

  run-Follows : (calls : List (Call registry)) (b : Builder registry) → Follows b (run calls b)
  unfolding run
  run-Follows [] b = Follows-refl b
  run-Follows (call ∷ calls) b =
      Follows-trans b (perform call b) (run calls (perform call b)) (perform-Follows call b)
        (run-Follows calls (perform call b))

  -- Calls of the scheduling methods keep the operations scheduled so far, in their order and in
  -- front, and a builder with at most 25 operations has at most 25 after them.
  pub run-extends :
      (calls : List (Call registry)) (b : Builder registry)
      → length b.operations ≤ 25
      → (length (run calls b).operations ≤ 25)
        × ((more : List (TransactOperation registry)) × ((run calls b).operations
              ≡ b.operations ++ more))
  run-extends calls b h = let kept = run-Follows calls b in (kept.bounded h, kept.extended)

  -- After an error no call changes the builder: neither the error nor the operations.
  pub run-failed :
      (calls : List (Call registry)) (b : Builder registry) (e : Error)
      → b.err ≡ some e
      → run calls b ≡ b
  run-failed calls b e h = (run-Follows calls b).sticky e h
