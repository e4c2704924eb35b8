-- ===== src/Transaction/Execution.antt =====
-- What ExecuteWithContext (pkg/transaction/builder.go) sends, how often, and what it leaves.
use table_theory.Base.{
  ℕ, suc, ◌+◌, ◌≤◌, ◌⊎◌, Bool, true, false, Option, none, some, List, [], ◌∷◌, Text, length, ◌≡◌,
  refl, sym, ap, ◌∙◌, arith, Result, ok, err, inl, inr,
}
use table_theory.Transaction.{Registry, Builder, TransactOperation, Error}
use table_theory.Transaction.Retry.{
  ClientError, Input, Api, retry_schedule, on_failure, on_answer, last_answer, attempts,
  execute_with_retry, materialize, conclude, commit, unless_failed, unless_empty,
  execute_with_context, translate_error,
}

module _ {Store : Type 0} where
  on_failure-cases :
      (s : Store) (t : Bool × Error) (ended : Option Error)
      (next : Store → Store × Result Error (Unit {0}))
      → ((e : Error) × (on_failure s t ended next ≡ (s, err e)))
        ⊎ (on_failure s t ended next ≡ next s)
  on_failure-cases s (false, translated) ended next = inl (translated, refl)
  on_failure-cases s (true, translated) (some e) next = inl (e, refl)
  on_failure-cases s (true, translated) none next = inr refl

  -- An attempt's answer ends the execution in its state, with success or an error, or leads on.
  on_answer-cases :
      (translate : ClientError → Bool × Error) (ended : Store → Option Error)
      (next : Store → Store × Result Error (Unit {0})) (out : Store × Result ClientError (Unit {0}))
      → (out.1 ≡ ok tt) × (on_answer translate ended next out ≡ (out.0, ok tt))
        ⊎ (((e : Error) × (on_answer translate ended next out ≡ (out.0, err e)))
            ⊎ (on_answer translate ended next out ≡ next out.0))
  on_answer-cases translate ended next (s, ok done) = inl (refl, refl)
  on_answer-cases translate ended next (s, err e) =
      inr (on_failure-cases s (translate e) (ended s) next)

  last_answer-cases :
      (translate : ClientError → Bool × Error) (out : Store × Result ClientError (Unit {0}))
      → (out.1 ≡ ok tt) × (last_answer translate out ≡ (out.0, ok tt))
        ⊎ ((e : Error) × (last_answer translate out ≡ (out.0, err e)))
  last_answer-cases translate (s, ok done) = inl (refl, refl)
  last_answer-cases translate (s, err e) = inr ((translate e).1, refl)

module _ (registry : Registry) {Store : Type 0} where
  unless_empty-cases :
      (operations : List (TransactOperation registry))
      (rest : Store × Builder registry × Result Error (Unit {0})) (b : Builder registry) (s : Store)
      → ((e : Error) × (unless_empty registry operations rest b s ≡ (s, b, err e)))
        ⊎ (unless_empty registry operations rest b s ≡ rest)
  unless_empty-cases [] rest b s = inl (_, refl)
  unless_empty-cases (op ∷ operations) rest b s = inr refl

  unless_failed-cases :
      (failed : Option Error) (rest : Store × Builder registry × Result Error (Unit {0}))
      (b : Builder registry) (s : Store)
      → ((e : Error) × (unless_failed registry failed rest b s ≡ (s, b, err e)))
        ⊎ (unless_failed registry failed rest b s ≡ rest)
  unless_failed-cases (some e) rest b s = inl (e, refl)
  unless_failed-cases none rest b s = unless_empty-cases b.operations rest b s

  conclude-cases :
      (b : Builder registry) (out : Store × Result Error (Unit {0}))
      → ((conclude registry b out ≡ (out.0, record b { operations = [] }, ok tt)) × (out.1 ≡ ok tt))
        ⊎ ((e : Error) × (conclude registry b out ≡ (out.0, b, err e)))
  conclude-cases b (s, ok done) = inl (refl, refl)
  conclude-cases b (s, err e) = inr (e, refl)

module _ (registry : Registry) {Item Store : Type 0} where
  attempts-sends :
      (sends : Store → ℕ) (api : Api Item Store) (ended : ℕ → Store → Option Error)
      (b : Builder registry) (input : Input Item) (waits : List ℕ) (s : Store)
      → ((s : Store) → sends (api input s).0 ≡ suc (sends s))
      → sends (attempts registry api ended b input waits s).0 ≤ sends s + suc (length waits)
  unfolding attempts
  attempts-sends sends api ended b input [] s counts =
      elim (last_answer-cases (translate_error registry b) (api input s)) [
        | inl (fine, e) ↦ rw e (omega (arith, counts s))
        | inr (failure, e) ↦ rw e (omega (arith, counts s))
      ]
  attempts-sends sends api ended b input (wait ∷ waits) s counts =
      let next = attempts registry api ended b input waits in
      elim (on_answer-cases (translate_error registry b) (ended wait) next (api input s)) [
        | inl (fine, e) ↦ rw e (omega (arith, counts s))
        | inr (inl (failure, e)) ↦ rw e (omega (arith, counts s))
        | inr (inr e) ↦ rw e (
            omega (
              arith,
              counts s,
              attempts-sends sends api ended b input waits (api input s).0 counts,
            ))
      ]

  attempts-ok :
      (Done : Store → Type 0) (api : Api Item Store) (ended : ℕ → Store → Option Error)
      (b : Builder registry) (input : Input Item) (waits : List ℕ) (s : Store)
      → ((s : Store) → (api input s).1 ≡ ok tt → Done (api input s).0)
      → (attempts registry api ended b input waits s).1 ≡ ok tt
      → Done (attempts registry api ended b input waits s).0
  unfolding attempts
  attempts-ok Done api ended b input [] s done h =
      elim (last_answer-cases (translate_error registry b) (api input s)) [
        | inl (fine, e) ↦ rw e (done s fine)
        | inr (failure, e) ↦ absurd (cc (sym (ap (λ o. o.1) e) ∙ h))
      ]
  attempts-ok Done api ended b input (wait ∷ waits) s done h =
      let next = attempts registry api ended b input waits in
      elim (on_answer-cases (translate_error registry b) (ended wait) next (api input s)) [
        | inl (fine, e) ↦ rw e (done s fine)
        | inr (inl (failure, e)) ↦ absurd (cc (sym (ap (λ o. o.1) e) ∙ h))
        | inr (inr e) ↦ rw e (
            attempts-ok Done api ended b input waits (api input s).0 done
              (sym (ap (λ o. o.1) e) ∙ h))
      ]

  commit-cases :
      (r : Result Error (List Item)) (send : List Item → Store → Store × Result Error (Unit {0}))
      (b : Builder registry) (s : Store)
      → ((e : Error) × (commit registry r send b s ≡ (s, b, err e)))
        ⊎ ((items : List Item) × (commit registry r send b s ≡ conclude registry b (send items s)))
  commit-cases (err e) send b s = inl (e, refl)
  commit-cases (ok items) send b s = inr (items, refl)

module _ (registry : Registry) {Item Store : Type 0} (api : Api Item Store)
    (ended : ℕ → Store → Option Error)
    (build_write_item : ℕ → TransactOperation registry → Result Error Item) (token : Text) where
  -- The execution of a builder with a client.
  abbrev pub executed :
      Builder registry → Store → Store × Builder registry × Result Error (Unit {0})
  executed b s = execute_with_context registry (ok api) ended build_write_item token b s

  sent : Builder registry → List Item → Store → Store × Result Error (Unit {0})
  sent b items =
      attempts registry api ended b (record { items = items; token = token }) retry_schedule

  executed-cases :
      (b : Builder registry) (s : Store)
      → ((e : Error) × (executed b s ≡ (s, b, err e)))
        ⊎ ((items : List Item) × (executed b s ≡ conclude registry b (sent b items s)))
  unfolding execute_with_context execute_with_retry sent
  executed-cases b s =
      let send = λ (items : List Item).
        execute_with_retry registry (ok api) ended b (record { items = items; token = token }) in
      let items = materialize registry build_write_item 0 b.operations in
      elim (unless_failed-cases registry b.err (commit registry items send b s) b s) [
        | inl refused ↦ inl refused
        | inr e ↦ elim (commit-cases registry items send b s) [
          | inl (failure, f) ↦ inl (failure, e ∙ f)
          | inr (items, f) ↦ inr (items, e ∙ f)
        ]
      ]

  -- ExecuteWithContext sends the transaction at most five times, however the client answers: once,
  -- and once after each wait of the schedule.
  pub execute_with_context-sends :
      (sends : Store → ℕ) (b : Builder registry) (s : Store)
      → ((input : Input Item) (s : Store) → sends (api input s).0 ≡ suc (sends s))
      → sends (executed b s).0 ≤ sends s + 5
  unfolding sent
  execute_with_context-sends sends b s counts = elim (executed-cases b s) [
    | inl (e, refused) ↦ rw refused (omega arith)
    | inr (items, e) ↦ elim (conclude-cases registry b (sent b items s)) [
      | inl (f, fine) ↦
          rw (e, f) (attempts-sends registry sends api ended b _ retry_schedule s (counts _))
      | inr (failure, f) ↦
          rw (e, f) (attempts-sends registry sends api ended b _ retry_schedule s (counts _))
    ]
  ]

  -- ExecuteWithContext succeeds only after a call of the client that succeeded, and then the
  -- operations are gone and the builder is as it was otherwise.
  pub execute_with_context-ok :
      (Done : Store → Type 0) (b : Builder registry) (s : Store)
      → ((input : Input Item) (s : Store) → (api input s).1 ≡ ok tt → Done (api input s).0)
      → (executed b s).2 ≡ ok tt
      → Done (executed b s).0 × ((executed b s).1 ≡ record b { operations = [] })
  unfolding sent
  execute_with_context-ok Done b s done h = elim (executed-cases b s) [
    | inl (e, refused) ↦ absurd (cc (sym (ap (λ o. o.2) refused) ∙ h))
    | inr (items, e) ↦ elim (conclude-cases registry b (sent b items s)) [
      | inl (f, fine) ↦
          rw (e, f) (attempts-ok registry Done api ended b _ retry_schedule s (done _) fine, refl)
      | inr (failure, f) ↦ absurd (cc (sym (ap (λ o. o.2) (e ∙ f)) ∙ h))
    ]
  ]

  -- After a failure the builder is as it was, so that it can be executed again.
  pub execute_with_context-err :
      (b : Builder registry) (s : Store) (e : Error)
      → (executed b s).2 ≡ err e
      → (executed b s).1 ≡ b
  execute_with_context-err b s e h = elim (executed-cases b s) [
    | inl (failure, refused) ↦ ap (λ o. o.1) refused
    | inr (items, f) ↦ elim (conclude-cases registry b (sent b items s)) [
      | inl (g, fine) ↦ absurd (cc (sym (ap (λ o. o.2) (f ∙ g)) ∙ h))
      | inr (failure, g) ↦ ap (λ o. o.1) (f ∙ g)
    ]
  ]
