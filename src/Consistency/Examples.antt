-- ===== src/Consistency/Examples.antt =====
-- A query that finds its result at the third attempt.
use table_theory.Base.{
  ℕ, suc, ◌+◌, ◌*◌, ◌≤◌, Option, none, [], ◌∷◌, Text, length, All, ltb, ◌≡◌, refl, arith,
}
use table_theory.Base.Int.{pos}
use table_theory.Consistency.Retry.{
  RetryConfig, returned, execute_with_retry, execute_with_retry-bounds,
}

-- Retries as long as fewer than three attempts were made, up to five times.
abbrev config : RetryConfig ℕ
config = record {
  retry_condition = λ made error. ltb made 3;
  max_retries = pos 5;
  initial_delay = 100;
  max_delay = 150;
  backed_off = λ delay. delay * 2;
}

abbrev exec : ℕ → ℕ × Option Text
exec made = (suc made, none)

sleeps_twice : execute_with_retry config exec 0 ≡ (3, returned none, 100 ∷ 150 ∷ [])
unfolding execute_with_retry
sleeps_twice = refl

execute_with_retry-bounds_example :
    let out = execute_with_retry config exec 0 in
    (out.0 ≡ 0 + suc (length out.2)) × (length out.2 ≤ 5) × All (λ d. d ≤ 150) out.2
execute_with_retry-bounds_example =
    execute_with_retry-bounds config exec (λ made. made) 5 150 0 (λ made. refl) refl (omega arith)
      (omega arith)
