-- ===== src/Protection/Limiter.antt =====
-- pkg/protection/simple_rate_limiter.go: SimpleLimiter. Times are nanoseconds of the monotonic
-- clock, which never runs back; a burst below zero allows as little as none.
use table_theory.Base.{
  ℕ, suc, ◌+◌, ◌-◌, ◌/◌, Bool, true, false, Option, none, some, List, [], ◌∷◌, if◌then◌else◌, ltb,
  ◌==◌,
}

-- struct SimpleLimiter, less its mutex: a call of Allow holds it throughout.
pub record SimpleLimiter : Type 0 where
  pub last_refill : ℕ
  pub tokens : ℕ
  pub max_tokens : ℕ
  pub refill_rate : ℕ

-- NewSimpleLimiter, with the interval that it computes from the rate in floating point
unfoldable pub new_simple_limiter : ℕ → ℕ → ℕ → SimpleLimiter
new_simple_limiter refill_interval burst now = record {
  last_refill = now;
  tokens = burst;
  max_tokens = burst;
  refill_rate = refill_interval;
}

abbrev pub refilled : SimpleLimiter → ℕ → ℕ → SimpleLimiter
refilled l now tokens_to_add =
    if ltb 0 tokens_to_add
    then record l {
      tokens =
          if ltb l.max_tokens (l.tokens + tokens_to_add)
          then l.max_tokens
          else l.tokens + tokens_to_add;
      last_refill = now;
    }
    else l

-- The test and the decrement at the end of Allow.
abbrev pub take_token : SimpleLimiter → SimpleLimiter × Bool
take_token l = if ltb 0 l.tokens then (record l { tokens = l.tokens - 1 }, true) else (l, false)

-- Allow at a time; `none` is the panic of a division by a refill interval of zero.
unfoldable pub allow : ℕ → SimpleLimiter → Option (SimpleLimiter × Bool)
allow now l =
    if l.refill_rate == 0
    then none
    else some (take_token (refilled l now ((now - l.last_refill) / l.refill_rate)))

-- One more call counts when it is allowed.
abbrev pub add_one : Bool → Option (SimpleLimiter × ℕ) → Option (SimpleLimiter × ℕ)
add_one granted none = none
add_one granted (some (l, n)) = some (l, if granted then suc n else n)

abbrev pub counted :
    Option (SimpleLimiter × Bool)
    → (SimpleLimiter → Option (SimpleLimiter × ℕ))
    → Option (SimpleLimiter × ℕ)
counted none rest = none
counted (some (l, granted)) rest = add_one granted (rest l)

-- The limiter after calls at the given times, and how many of them are allowed.
unfoldable pub allowed : List ℕ → SimpleLimiter → Option (SimpleLimiter × ℕ)
unfolding allow
allowed [] l = some (l, 0)
allowed (now ∷ times) l = counted (allow now l) (allowed times)
