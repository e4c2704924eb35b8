-- ===== src/Consistency/Retry.antt =====
-- pkg/consistency/retry.go: executeWithRetry. The query and what it writes to `dest` are a function
-- of the state behind them; the delays are in nanoseconds, and the product of a delay and the backoff
-- factor, which the code takes in floating point, is an argument.
use table_theory.Base.{
  ℕ, zero, suc, ◌+◌, ◌≤◌, Bool, Option, none, some, List, [], ◌∷◌, Text, if◌then◌else◌, ltb, length,
  All, ◌≡◌, inl, inr, arith, Bool-cases,
}
use table_theory.Base.Int.{ℤ, pos, negsuc}

-- struct RetryConfig; the condition reads the state, in which `dest` is, and the query's error.
pub record RetryConfig (Store : Type 0) : Type 0 where
  pub retry_condition : Store → Option Text → Bool
  pub max_retries : ℤ
  pub initial_delay : ℕ
  pub max_delay : ℕ
  pub backed_off : ℕ → ℕ

pub data Outcome : Type 0 where
  returned : Option Text → Outcome
  failed_after no_results_after : Outcome

-- A run: the state, the outcome, the delays slept.
abbrev pub Run : Type 0 → Type 0
Run Store = Store × Outcome × List ℕ

-- The errors after the last attempt.
abbrev pub exhausted : Option Text → Outcome
exhausted none = no_results_after
exhausted (some e) = failed_after

module _ {Store : Type 0} (config : RetryConfig Store) (exec : Store → Store × Option Text) where
  unfoldable pub next_delay : ℕ → ℕ
  next_delay delay =
      if ltb config.max_delay (config.backed_off delay)
      then config.max_delay
      else config.backed_off delay

  abbrev pub slept : ℕ → Run Store → Run Store
  slept delay (s, outcome, delays) = (s, outcome, delay ∷ delays)

  -- The attempts with the number of retries that are left and the delay before the next one.
  unfoldable pub attempts : ℕ → ℕ → Store → Run Store
  unfolding next_delay
  attempts zero delay s =
      let (s', e) = exec s in
      if config.retry_condition s' e then (s', exhausted e, []) else (s', returned e, [])
  attempts (suc left) delay s =
      let (s', e) = exec s in
      let rest = slept delay (attempts left (next_delay delay) s') in
      if config.retry_condition s' e then rest else (s', returned e, [])

  unfoldable pub execute_with_retry : Store → Run Store
  unfolding attempts
  execute_with_retry s = elim config.max_retries [
    | pos n ↦ attempts n config.initial_delay s
    | negsuc n ↦ (s, no_results_after, [])
  ]

  -- The query runs once more than the run sleeps, and it sleeps no more often than retries are left.
  attempts-counts :
      (runs : Store → ℕ) (left delay : ℕ) (s : Store)
      → ((s : Store) → runs (exec s).0 ≡ suc (runs s))
      → let out = attempts left delay s in
        (runs out.0 ≡ runs s + suc (length out.2)) × (length out.2 ≤ left)
  unfolding attempts
  attempts-counts runs zero delay s counts =
      elim (Bool-cases (config.retry_condition (exec s).0 (exec s).1)) [
        | inl again ↦ rw again (omega (arith, counts s), omega arith)
        | inr done ↦ rw done (omega (arith, counts s), omega arith)
      ]
  attempts-counts runs (suc left) delay s counts =
      elim (Bool-cases (config.retry_condition (exec s).0 (exec s).1)) [
        | inl again ↦
            let ih = attempts-counts runs left (next_delay delay) (exec s).0 counts in
            rw again (omega (arith, ih.0, counts s), omega (arith, ih.1))
        | inr done ↦ rw done (omega (arith, counts s), omega arith)
      ]

  next_delay-le : (delay : ℕ) → next_delay delay ≤ config.max_delay
  unfolding next_delay
  next_delay-le delay = ground arith

  attempts-delays :
      (bound left delay : ℕ) (s : Store)
      → config.max_delay ≤ bound
      → delay ≤ bound
      → All (λ d. d ≤ bound) (attempts left delay s).2
  unfolding attempts
  attempts-delays bound zero delay s cap h =
      elim (Bool-cases (config.retry_condition (exec s).0 (exec s).1)) [
        | inl again ↦ rw again tt
        | inr done ↦ rw done tt
      ]
  attempts-delays bound (suc left) delay s cap h =
      elim (Bool-cases (config.retry_condition (exec s).0 (exec s).1)) [
        | inl again ↦ rw again (
          h,
          attempts-delays bound left (next_delay delay) (exec s).0 cap
              (omega (arith, next_delay-le delay)),
        )
        | inr done ↦ rw done tt
      ]

  -- With retries n of zero or more, the query runs at least once and at most n + 1 times, the run
  -- sleeps once between any two of them, and no delay is above a bound on the first delay and on the
  -- maximum.
  pub execute_with_retry-bounds :
      (runs : Store → ℕ) (n bound : ℕ) (s : Store)
      → ((s : Store) → runs (exec s).0 ≡ suc (runs s))
      → config.max_retries ≡ pos n
      → config.initial_delay ≤ bound
      → config.max_delay ≤ bound
      → let out = execute_with_retry s in
        (runs out.0 ≡ runs s + suc (length out.2)) × (length out.2 ≤ n) × All (λ d. d ≤ bound) out.2
  unfolding execute_with_retry
  execute_with_retry-bounds runs n bound s counts retries first cap =
      let counted = attempts-counts runs n config.initial_delay s counts in
      rw retries (counted.0, counted.1, attempts-delays bound n config.initial_delay s cap first)
