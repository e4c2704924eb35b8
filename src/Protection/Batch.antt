-- ===== src/Protection/Batch.antt =====
-- pkg/protection/resource_limiter.go: the slots of concurrent batch operations, that is AcquireBatch
-- from its select on and ReleaseBatch. Goroutines interleave between the atomic operations, which are
-- the steps here, but for the two increments after the select, which are one; a goroutine releases only
-- what it acquired.
use table_theory.Base.{
  ℕ, zero, suc, ◌+◌, ◌-◌, ◌≤◌, Option, none, some, List, [], ◌∷◌, if◌then◌else◌, ltb, leb, length,
  All, ◌≡◌, refl, ap, arith, inl, inr, Bool-cases, ltb→lt,
}

-- The semaphore and the statistics, and the goroutines by what they do next: `entering` have a slot
-- and are not counted yet, `raising` are counted, with the count that each got, and still have to
-- raise the maximum, `holding` have returned from AcquireBatch, and `leaving` are counted out and
-- still have their slot.
pub record Slots : Type 0 where
  pub in_use : ℕ
  pub concurrent_batch_ops : ℕ
  pub total_batch_ops : ℕ
  pub rejected_batch_ops : ℕ
  pub max_concurrent_batch : ℕ
  pub entering : ℕ
  pub raising : List ℕ
  pub holding : ℕ
  pub leaving : ℕ

pub data Step : Type 0 where
  take_slot give_up count_in count_out free_slot : Step
  raise_max : ℕ → Step

-- The element at an index and the others.
abbrev pub onto : ℕ → Option (ℕ × List ℕ) → Option (ℕ × List ℕ)
onto x none = none
onto x (some (picked, rest)) = some (picked, x ∷ rest)

unfoldable pub pick : ℕ → List ℕ → Option (ℕ × List ℕ)
pick i [] = none
pick zero (x ∷ xs) = some (x, xs)
pick (suc i) (x ∷ xs) = onto x (pick i xs)

-- The loop with CompareAndSwap ends with the greater of the two.
abbrev pub raised : Option (ℕ × List ℕ) → Slots → Slots
raised none w = w
raised (some (current, rest)) w = record w {
  raising = rest;
  holding = suc w.holding;
  max_concurrent_batch =
      if leb current w.max_concurrent_batch then w.max_concurrent_batch else current;
}

-- A step that no goroutine is at changes nothing.
unfoldable pub step : ℕ → Step → Slots → Slots
unfolding pick
step limit take_slot w =
    if ltb w.in_use limit
    then record w { in_use = suc w.in_use; entering = suc w.entering }
    else record w { rejected_batch_ops = suc w.rejected_batch_ops }
-- The context is done when a slot is asked for.
step limit give_up w = record w { rejected_batch_ops = suc w.rejected_batch_ops }
step limit count_in w =
    if ltb 0 w.entering
    then record w {
      entering = w.entering - 1;
      concurrent_batch_ops = suc w.concurrent_batch_ops;
      total_batch_ops = suc w.total_batch_ops;
      raising = suc w.concurrent_batch_ops ∷ w.raising;
    }
    else w
step limit (raise_max i) w = raised (pick i w.raising) w
step limit count_out w =
    if ltb 0 w.holding
    then record w {
      holding = w.holding - 1;
      leaving = suc w.leaving;
      concurrent_batch_ops = w.concurrent_batch_ops - 1;
    }
    else w
step limit free_slot w =
    if ltb 0 w.leaving then record w { leaving = w.leaving - 1; in_use = w.in_use - 1 } else w

unfoldable pub steps : ℕ → List Step → Slots → Slots
unfolding step
steps limit [] w = w
steps limit (s ∷ rest) w = steps limit rest (step limit s w)

-- Every slot in use belongs to one goroutine, those counted in are the ones that raise and hold, and
-- no count was ever above the limit.
pub record IsSound (limit : ℕ) (w : Slots) : Type 0 where
  pub bounded : w.in_use ≤ limit
  pub owned : w.in_use ≡ w.entering + length w.raising + w.holding + w.leaving
  pub counted : w.concurrent_batch_ops ≡ length w.raising + w.holding
  pub seen : w.max_concurrent_batch ≤ limit
  pub counts : All (λ c. c ≤ limit) w.raising

abbrev Picked : (ℕ → Type 0) → List ℕ → Option (ℕ × List ℕ) → Type 0
Picked P xs none = Unit
Picked P xs (some (x, rest)) = P x × All P rest × (length xs ≡ suc (length rest))

onto-Picked :
    (P : ℕ → Type 0) (y : ℕ) (xs : List ℕ) (o : Option (ℕ × List ℕ))
    → P y
    → Picked P xs o
    → Picked P (y ∷ xs) (onto y o)
onto-Picked P y xs none here h = tt
onto-Picked P y xs (some (x, rest)) here h = (h.0, (here, h.1), ap suc h.2)

pick-Picked : (P : ℕ → Type 0) (i : ℕ) (xs : List ℕ) → All P xs → Picked P xs (pick i xs)
unfolding pick
pick-Picked P i [] h = tt
pick-Picked P zero (y ∷ xs) h = (h.0, h.1, refl)
pick-Picked P (suc i) (y ∷ xs) h = onto-Picked P y xs (pick i xs) h.0 (pick-Picked P i xs h.1)

raised-IsSound :
    (limit : ℕ) (w : Slots) (o : Option (ℕ × List ℕ))
    → Picked (λ c. c ≤ limit) w.raising o
    → IsSound limit w
    → IsSound limit (raised o w)
raised-IsSound limit w none p h = h
raised-IsSound limit w (some (current, rest)) p h = record {
  bounded = h.bounded;
  owned = omega (arith, h.owned, p.2);
  counted = omega (arith, h.counted, p.2);
  seen = ground (arith, h.seen, p.0);
  counts = p.1;
}

step-IsSound : (limit : ℕ) (s : Step) (w : Slots) → IsSound limit w → IsSound limit (step limit s w)
unfolding step
step-IsSound limit take_slot w h = elim (Bool-cases (ltb w.in_use limit)) [
  | inl free ↦ rw free (record {
    bounded = omega (arith, ltb→lt _ _ free);
    owned = omega (arith, h.owned);
    counted = h.counted;
    seen = h.seen;
    counts = h.counts;
  })
  | inr full ↦ rw full (record {
    bounded = h.bounded;
    owned = h.owned;
    counted = h.counted;
    seen = h.seen;
    counts = h.counts;
  })
]
step-IsSound limit give_up w h = record {
  bounded = h.bounded;
  owned = h.owned;
  counted = h.counted;
  seen = h.seen;
  counts = h.counts;
}
step-IsSound limit count_in w h = elim (Bool-cases (ltb 0 w.entering)) [
  | inl enters ↦ rw enters (record {
    bounded = h.bounded;
    owned = omega (arith, h.owned, ltb→lt _ _ enters);
    counted = omega (arith, h.counted);
    seen = h.seen;
    counts = (omega (arith, h.bounded, h.owned, h.counted, ltb→lt _ _ enters), h.counts);
  })
  | inr idle ↦ rw idle h
]
step-IsSound limit (raise_max i) w h =
    raised-IsSound limit w (pick i w.raising) (pick-Picked (λ c. c ≤ limit) i w.raising h.counts) h
step-IsSound limit count_out w h = elim (Bool-cases (ltb 0 w.holding)) [
  | inl holds ↦ rw holds (record {
    bounded = h.bounded;
    owned = omega (arith, h.owned, ltb→lt _ _ holds);
    counted = omega (arith, h.counted, ltb→lt _ _ holds);
    seen = h.seen;
    counts = h.counts;
  })
  | inr idle ↦ rw idle h
]
step-IsSound limit free_slot w h = elim (Bool-cases (ltb 0 w.leaving)) [
  | inl leaves ↦ rw leaves (record {
    bounded = omega (arith, h.bounded);
    owned = omega (arith, h.owned, ltb→lt _ _ leaves);
    counted = h.counted;
    seen = h.seen;
    counts = h.counts;
  })
  | inr idle ↦ rw idle h
]

-- Whatever way goroutines interleave between the atomic operations, from sound slots on: at most the
-- configured number of batches has a slot, each slot in use belongs to one goroutine, the counter
-- counts those that are counted in and not out again, and the recorded maximum is within the limit.
pub steps-IsSound :
    (limit : ℕ) (interleaving : List Step) (w : Slots)
    → IsSound limit w
    → IsSound limit (steps limit interleaving w)
unfolding steps
steps-IsSound limit [] w h = h
steps-IsSound limit (s ∷ rest) w h =
    steps-IsSound limit rest (step limit s w) (step-IsSound limit s w h)
