-- ===== src/Protection/Rate.antt =====
-- How many calls of Allow (pkg/protection/simple_rate_limiter.go) are allowed over time.
use table_theory.Base.{
  subst, ℕ, zero, suc, ◌+◌, ◌-◌, ◌/◌, ◌*◌, ◌≤◌, ◌<◌, Bool, true, false, some, List, [], ◌∷◌,
  if◌then◌else◌, ltb, ◌==◌, ◌≡◌, refl, sym, ap, ◌∙◌, arith, inl, inr, Bool-cases, ltb→lt,
}
use native.Mathlib.Nat.{
  mul-add-div_right, le-div_iff_mul-le, mul-le-mul_right, add-mul, suc-mul, div-add-mod',
}
use table_theory.Protection.Limiter.{
  SimpleLimiter, new_simple_limiter, take_token, refilled, allow, allowed,
}

-- The times do not run back, from a start on.
abbrev pub IsOrdered : ℕ → List ℕ → Type 0
IsOrdered start [] = Unit
IsOrdered start (t ∷ times) = (start ≤ t) × IsOrdered t times

-- The last of the times, or the start.
abbrev pub end_of : ℕ → List ℕ → ℕ
end_of start [] = start
end_of start (t ∷ times) = end_of t times

le-end_of : (start : ℕ) (times : List ℕ) → IsOrdered start times → start ≤ end_of start times
le-end_of start [] h = omega arith
le-end_of start (t ∷ times) h = omega (arith, h.0, le-end_of t times h.1)

-- A call spends what time has refilled: tokens count as the time that refills them.
abbrev Spends : ℕ → SimpleLimiter → SimpleLimiter → Bool → Type 0
Spends now l l' granted =
    (l'.refill_rate ≡ l.refill_rate)
    × (l.last_refill ≤ l'.last_refill)
    × (l'.last_refill ≤ now)
    × (l'.tokens * l.refill_rate + (if granted then l.refill_rate else 0)
        ≤ l.tokens * l.refill_rate + (l'.last_refill - l.last_refill))

nonzero : (n : ℕ) → 0 < n → (n == 0) ≡ false
nonzero n h = ground arith

spend_one : (tokens rate : ℕ) → 0 < tokens → (tokens - 1) * rate + rate ≡ tokens * rate
spend_one zero rate h = absurd (omega arith)
spend_one (suc n) rate h = ap (λ k. k * rate + rate) (omega arith) ∙ sym (suc-mul n rate)

take_token-Spends :
    (now : ℕ) (l : SimpleLimiter)
    → l.last_refill ≤ now
    → Spends now l (take_token l).0 (take_token l).1
take_token-Spends now l h = elim (Bool-cases (ltb 0 l.tokens)) [
  | inl full ↦ rw full (
    refl,
    omega arith,
    h,
    omega (arith, spend_one l.tokens l.refill_rate (ltb→lt 0 l.tokens full)),
  )
  | inr dry ↦ rw dry (refl, omega arith, h, omega arith)
]

-- Tokens within those before and those that the time has refilled.
within :
    (tokens new add rate elapsed : ℕ)
    → new ≤ tokens + add
    → add * rate ≤ elapsed
    → new * rate + 0 ≤ tokens * rate + elapsed
within tokens new add rate elapsed less fits =
    omega (arith, mul-le-mul_right rate less, add-mul tokens add rate, fits)

refilled-Spends :
    (now : ℕ) (l : SimpleLimiter) (add : ℕ)
    → l.last_refill ≤ now
    → add * l.refill_rate ≤ now - l.last_refill
    → Spends now l (refilled l now add) false
refilled-Spends now l add h fits = elim (Bool-cases (ltb 0 add)) [
  | inr waits ↦ rw waits (refl, omega arith, h, omega arith)
  | inl some_add ↦ elim (Bool-cases (ltb l.max_tokens (l.tokens + add))) [
    | inl capped ↦
        rw (some_add, capped)
          (
            refl,
            h,
            omega arith,
            within l.tokens l.max_tokens add l.refill_rate _ (omega (arith, ltb→lt _ _ capped))
                fits,
          )
    | inr free ↦
        rw (some_add, free)
          (
            refl,
            h,
            omega arith,
            within l.tokens (l.tokens + add) add l.refill_rate _ (omega arith) fits,
          )
  ]
]

Spends-trans :
    (now : ℕ) (l m n : SimpleLimiter) (granted : Bool)
    → Spends now l m false
    → Spends now m n granted
    → Spends now l n granted
Spends-trans now l m n granted first next =
    let same = ap (λ r. n.tokens * r + (if granted then r else 0)) first.0 in
    let before = ap (λ r. m.tokens * r) first.0 in
    (
      next.0 ∙ first.0,
      omega (arith, first.1, next.1),
      next.2,
      omega (arith, same, before, first.1, first.2, first.3, next.1, next.3),
    )

-- Without a refill interval of zero a call returns, and it spends what time has refilled.
allow-Spends :
    (now : ℕ) (l : SimpleLimiter)
    → 0 < l.refill_rate
    → l.last_refill ≤ now
    → (l' : SimpleLimiter) × (granted : Bool) × (allow now l ≡ some (l', granted))
      × Spends now l l' granted
unfolding allow
allow-Spends now l rate h =
    let add = (now - l.last_refill) / l.refill_rate in
    let m = refilled l now add in
    let refill =
      refilled-Spends now l add h
        (omega (arith, div-add-mod' (now - l.last_refill) l.refill_rate)) in
    (
      (take_token m).0,
      (take_token m).1,
      rw (nonzero l.refill_rate rate) refl,
      Spends-trans now l m (take_token m).0 (take_token m).1 refill
          (take_token-Spends now m refill.2),
    )

IsOrdered-earlier :
    (early start : ℕ) (times : List ℕ)
    → early ≤ start
    → IsOrdered start times
    → IsOrdered early times
IsOrdered-earlier early start [] le h = tt
IsOrdered-earlier early start (t ∷ times) le h = (omega (arith, le, h.0), h.1)

end_of-le :
    (early start : ℕ) (times : List ℕ) → early ≤ start → end_of early times ≤ end_of start times
end_of-le early start [] h = h
end_of-le early start (t ∷ times) h = omega arith

-- The cost of one call and of the rest.
count_cost :
    (granted : Bool) (count rate : ℕ)
    → (if granted then suc count else count) * rate ≡ count * rate + (if granted then rate else 0)
count_cost true count rate = suc-mul count rate
count_cost false count rate = omega arith

-- The calls that a limiter allows cost no more than its tokens and what the time up to the last of
-- them refills.
allowed-bound :
    (times : List ℕ) (l : SimpleLimiter)
    → 0 < l.refill_rate
    → IsOrdered l.last_refill times
    → (final : SimpleLimiter) × (count : ℕ) × (allowed times l ≡ some (final, count))
      × (count * l.refill_rate
          ≤ l.tokens * l.refill_rate + (end_of l.last_refill times - l.last_refill))
unfolding allowed
allowed-bound [] l rate h = (l, 0, refl, omega arith)
allowed-bound (now ∷ times) l rate h =
    let (l', granted, e, spends) = allow-Spends now l rate h.0 in
    let ordered = IsOrdered-earlier l'.last_refill now times spends.2 h.1 in
    let (final, count, rest, bound) =
      allowed-bound times l' (omega (arith, rate, spends.0)) ordered in
    let cost = ap (λ r. count * r) spends.0 in
    let fund = ap (λ r. l'.tokens * r) spends.0 in
    (
      final,
      (if granted then suc count else count),
      rw (e, rest) refl,
      omega (
        arith,
        count_cost granted count l.refill_rate,
        cost,
        fund,
        bound,
        spends.1,
        spends.3,
        end_of-le l'.last_refill now times spends.2,
        le-end_of l'.last_refill times ordered,
      ),
    )

count-le :
    (count burst rate elapsed : ℕ)
    → 0 < rate
    → count * rate ≤ burst * rate + elapsed
    → count ≤ burst + elapsed / rate
count-le count burst rate elapsed h bound =
    subst (λ n. count ≤ n) (mul-add-div_right h burst elapsed) ((le-div_iff_mul-le h).1 bound)

-- Calls at times that do not run back, of a new limiter with a refill interval above zero, all
-- return, and the number of those allowed is at most the burst and the number of refill intervals
-- from its creation to the last call.
pub allowed-le-rate :
    (refill_interval burst start : ℕ) (times : List ℕ)
    → 0 < refill_interval
    → IsOrdered start times
    → (final : SimpleLimiter) × (count : ℕ) × (allowed times
          (new_simple_limiter refill_interval burst start)
        ≡ some (final, count))
      × (count ≤ burst + (end_of start times - start) / refill_interval)
unfolding new_simple_limiter
allowed-le-rate refill_interval burst start times rate h =
    let l = new_simple_limiter refill_interval burst start in
    let (final, count, e, bound) = allowed-bound times l rate h in
    (final, count, e, count-le count burst refill_interval _ rate bound)
