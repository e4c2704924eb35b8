-- ===== src/Query/Retries.antt =====
-- pkg/query/query.go: First and All with WithRetry. The executor is a function of the state behind it;
-- what a call appends to an empty destination is its result. A destination of the wrong kind, which
-- reflection finds, is left out. A delay is in nanoseconds; one below zero is not slept.
use table_theory.Base.{
  ℕ, zero, suc, ◌+◌, ◌*◌, ◌≤◌, ◌<◌, Bool, true, false, List, [], ◌∷◌, if◌then◌else◌, ltb, All, ◌≡◌,
  refl, ◌⊎◌, inl, inr, arith, Bool-cases, Result, ok, err,
}
use table_theory.Base.Int.{ℤ, pos, negsuc}
use table_theory.Query.State.{Error, item_not_found}

-- 5 * time.Second
abbrev pub max_delay : ℕ
max_delay = 5000000000

-- The delay after one that was slept.
unfoldable pub next_delay : ℕ → ℕ
next_delay delay = if ltb max_delay (delay * 2) then max_delay else delay * 2

-- time.Sleep is called for a delay above zero.
abbrev sleeps : ℕ → List ℕ → List ℕ
sleeps zero rest = rest
sleeps (suc n) rest = suc n ∷ rest

-- The state, the result and the delays slept.
abbrev pub Run : Type 0 → Type 0 → Type 0
Run Store A = Store × Result Error A × List ℕ

abbrev pub after_sleep : {Store A : Type 0} → ℕ → Run Store A → Run Store A
after_sleep delay (s, r, delays) = (s, r, sleeps delay delays)

abbrev pub is_not_found : {A : Type 0} → Result Error A → Bool
is_not_found (err item_not_found) = true
is_not_found (err _) = false
is_not_found (ok a) = false

-- An error, or no item.
abbrev pub is_missing : {Item : Type 0} → Result Error (List Item) → Bool
is_missing (err e) = true
is_missing (ok []) = true
is_missing (ok (item ∷ items)) = false

module _ {Store A : Type 0} (exec : Store → Store × Result Error A)
    (again : Result Error A → Bool) where
  -- The attempts with the number of retries that are left, and the delay before the next one.
  unfoldable pub attempts : ℕ → ℕ → Store → Run Store A
  unfolding next_delay
  attempts zero delay s = let (s', r) = exec s in (s', r, [])
  attempts (suc left) delay s =
      let (s', r) = exec s in
      let rest = after_sleep delay (attempts left (next_delay delay) s') in
      if again r then rest else (s', r, [])

  abbrev initial : ℤ → ℕ
  initial (pos n) = n
  initial (negsuc n) = 0

  -- The loop of both methods; fewer than no retries run nothing, and give `otherwise`.
  unfoldable pub run_with_retry : ℤ → ℤ → Result Error A → Store → Run Store A
  unfolding attempts
  run_with_retry (pos n) delay otherwise s = attempts n (initial delay) s
  run_with_retry (negsuc n) delay otherwise s = (s, otherwise, [])

  -- What holds of a run from a state that counts `before` executions: it ends with the result of its
  -- last execution, it makes at most one more than the retries, and all of these unless the result
  -- need not be tried again. It sleeps only above zero and up to the bound.
  pub record IsBounded (runs : Store → ℕ) (left before bound : ℕ) (out : Run Store A) : Type 0 where
    pub at_least_one : before < runs out.0
    pub at_most : runs out.0 ≤ before + suc left
    pub settled : (again out.1 ≡ false) ⊎ (runs out.0 ≡ before + suc left)
    pub last_result : (s : Store) × (exec s ≡ (out.0, out.1))
    pub delays : All (λ d. (0 < d) × (d ≤ bound)) out.2

  sleeps-All :
      (bound delay : ℕ) (rest : List ℕ)
      → delay ≤ bound
      → All (λ d. (0 < d) × (d ≤ bound)) rest
      → All (λ d. (0 < d) × (d ≤ bound)) (sleeps delay rest)
  sleeps-All bound zero rest h all_rest = all_rest
  sleeps-All bound (suc n) rest h all_rest = ((omega arith, h), all_rest)

  next_delay-le : (delay : ℕ) → next_delay delay ≤ max_delay
  unfolding next_delay
  next_delay-le delay = ground arith

  last_one :
      (runs : Store → ℕ) (left bound : ℕ) (s : Store)
      → ((s : Store) → runs (exec s).0 ≡ suc (runs s))
      → (again (exec s).1 ≡ false) ⊎ (left ≡ 0)
      → IsBounded runs left (runs s) bound ((exec s).0, (exec s).1, [])
  last_one runs left bound s counts (inl done) = record {
    at_least_one = omega (arith, counts s);
    at_most = omega (arith, counts s);
    settled = inl done;
    last_result = (s, refl);
    delays = tt;
  }
  last_one runs left bound s counts (inr no_more) = record {
    at_least_one = omega (arith, counts s);
    at_most = omega (arith, counts s);
    settled = inr (omega (arith, counts s));
    last_result = (s, refl);
    delays = tt;
  }

  attempts-IsBounded :
      (runs : Store → ℕ) (bound left delay : ℕ) (s : Store)
      → ((s : Store) → runs (exec s).0 ≡ suc (runs s))
      → max_delay ≤ bound
      → delay ≤ bound
      → IsBounded runs left (runs s) bound (attempts left delay s)
  unfolding attempts
  attempts-IsBounded runs bound zero delay s counts cap h =
      last_one runs 0 bound s counts (inr refl)
  attempts-IsBounded runs bound (suc left) delay s counts cap h =
      elim (Bool-cases (again (exec s).1)) [
        | inr done ↦ rw done (last_one runs (suc left) bound s counts (inl done))
        | inl more ↦
            let rest = attempts left (next_delay delay) (exec s).0 in
            let ih =
              attempts-IsBounded runs bound left (next_delay delay) (exec s).0 counts cap
                (omega (arith, next_delay-le delay)) in
            rw more (record {
              at_least_one = omega (arith, counts s, ih.at_least_one);
              at_most = omega (arith, counts s, ih.at_most);
              settled = elim ih.settled [
                | inl done ↦ inl done
                | inr all_used ↦ inr (omega (arith, counts s, all_used))
              ];
              last_result = ih.last_result;
              delays = sleeps-All bound delay rest.2 h ih.delays;
            })
      ]

  run_with_retry-IsBounded :
      (runs : Store → ℕ) (bound n delay : ℕ) (otherwise : Result Error A) (s : Store)
      → ((s : Store) → runs (exec s).0 ≡ suc (runs s))
      → max_delay ≤ bound
      → delay ≤ bound
      → IsBounded runs n (runs s) bound (run_with_retry (pos n) (pos delay) otherwise s)
  unfolding run_with_retry
  run_with_retry-IsBounded runs bound n delay otherwise s counts cap h =
      attempts-IsBounded runs bound n delay s counts cap h

-- firstWithRetry: an item that is not found is tried again.
unfoldable pub first_with_retry :
    {Store Item : Type 0} → (Store → Store × Result Error Item) → ℤ → ℤ → Store → Run Store Item
unfolding run_with_retry
first_with_retry exec max_retries delay s =
    run_with_retry exec is_not_found max_retries delay (err item_not_found) s

-- allWithRetry: an error or an empty result is tried again. With fewer than no retries the
-- destination keeps the items `held`.
unfoldable pub all_with_retry :
    {Store Item : Type 0}
    → (Store → Store × Result Error (List Item))
    → List Item
    → ℤ
    → ℤ
    → Store
    → Run Store (List Item)
unfolding run_with_retry
all_with_retry exec held max_retries delay s =
    run_with_retry exec is_missing max_retries delay (ok held) s

-- First and All with n retries, n not below zero, end with the result of their last execution, which
-- are one at least and n + 1 at most, and fewer than that only if First has an item or an error other
-- than that none was found, or All has an item; each delay that they sleep is above zero, and within
-- a bound on the first delay and on five seconds.
pub with_retry-IsBounded :
    {Store Item : Type 0} (first : Store → Store × Result Error Item)
    (all_items : Store → Store × Result Error (List Item)) (held : List Item) (runs : Store → ℕ)
    (bound n delay : ℕ) (s : Store)
    → ((s : Store) → runs (first s).0 ≡ suc (runs s))
    → ((s : Store) → runs (all_items s).0 ≡ suc (runs s))
    → max_delay ≤ bound
    → delay ≤ bound
    → IsBounded first is_not_found runs n
        (runs s)
        bound
        (first_with_retry first (pos n) (pos delay) s)
      × IsBounded all_items is_missing runs n
          (runs s)
          bound
          (all_with_retry all_items held (pos n) (pos delay) s)
unfolding first_with_retry all_with_retry
with_retry-IsBounded first all_items held runs bound n delay s h k cap fits = (
  run_with_retry-IsBounded first is_not_found runs bound n delay (err item_not_found) s h cap fits,
  run_with_retry-IsBounded all_items is_missing runs bound n delay (ok held) s k cap fits,
)
