-- ===== src/Protection/Examples.antt =====
-- A limiter at concrete times.
use table_theory.Base.{ℕ, ◌+◌, ◌-◌, ◌/◌, ◌≤◌, ◌≡◌, refl, Option, none, some, List, [], ◌∷◌, arith}
use table_theory.Protection.Limiter.{SimpleLimiter, new_simple_limiter, allow, allowed}
use table_theory.Protection.Rate.{IsOrdered, end_of, allowed-le-rate}
use table_theory.Protection.Batch.{
  Slots, Step, take_slot, count_in, count_out, raise_max, steps, IsSound, steps-IsSound,
}

-- A burst of two, and a token every ten nanoseconds
abbrev times : List ℕ
times = 3 ∷ 4 ∷ 5 ∷ 15 ∷ 19 ∷ 40 ∷ []

count_of : Option (SimpleLimiter × ℕ) → Option ℕ
count_of none = none
count_of (some (l, n)) = some n

allows_four : count_of (allowed times (new_simple_limiter 10 2 0)) ≡ some 4
unfolding count_of allowed new_simple_limiter
allows_four = refl

zero_interval : allow 5 (new_simple_limiter 0 2 0) ≡ none
unfolding allow new_simple_limiter
zero_interval = refl

times-IsOrdered : IsOrdered 0 times
times-IsOrdered =
    (omega arith, (omega arith, (omega arith, (omega arith, (omega arith, (omega arith, tt))))))

allowed-le-rate_example :
    (final : SimpleLimiter) × (count : ℕ) × (allowed times (new_simple_limiter 10 2 0)
      ≡ some (final, count))
    × (count ≤ 2 + (end_of 0 times - 0) / 10)
allowed-le-rate_example = allowed-le-rate 10 2 0 times (omega arith) times-IsOrdered

abbrev idle : Slots
idle = record {
  in_use = 0;
  concurrent_batch_ops = 0;
  total_batch_ops = 0;
  rejected_batch_ops = 0;
  max_concurrent_batch = 0;
  entering = 0;
  raising = [];
  holding = 0;
  leaving = 0;
}

idle-IsSound : IsSound 2 idle
idle-IsSound = record {
  bounded = omega arith;
  owned = refl;
  counted = refl;
  seen = omega arith;
  counts = tt;
}

-- Three goroutines ask for two slots, and the second raises the maximum before the first.
abbrev interleaving : List Step
interleaving =
    take_slot
    ∷ take_slot
    ∷ count_in
    ∷ take_slot
    ∷ count_in
    ∷ raise_max 0
    ∷ raise_max 0
    ∷ count_out
    ∷ []

rejects_one : (steps 2 interleaving idle).rejected_batch_ops ≡ 1
unfolding steps
rejects_one = refl

reaches_two : (steps 2 interleaving idle).max_concurrent_batch ≡ 2
unfolding steps
reaches_two = refl

steps-IsSound_example : IsSound 2 (steps 2 interleaving idle)
steps-IsSound_example = steps-IsSound 2 interleaving idle idle-IsSound
