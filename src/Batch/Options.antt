-- ===== src/Batch/Options.antt =====
-- pkg/core/batch_get_options.go, retry_policy.go and normalizeBatchGetOptions. Durations are in
-- nanoseconds and the two fractions in hundredths.
use table_theory.Base.{Bool, false, ◌||◌, not, Option, none, some, List, if◌then◌else◌}
use table_theory.Base.Int.{ℤ, pos, leb_ℤ, ltb_ℤ}

-- struct RetryPolicy
pub record RetryPolicy : Type 0 where
  pub max_retries : ℤ
  pub initial_delay : ℤ
  pub max_delay : ℤ
  pub backoff_factor : ℤ
  pub jitter : ℤ

-- struct BatchGetOptions over the keys and the errors that the handler takes. A callback for progress
-- is there or not; the calls of it are the reports of a run.
pub record BatchGetOptions (Key E : Type 0) : Type 0 where
  pub retry_policy : Option RetryPolicy
  pub progress_callback : Bool
  pub on_chunk_error : Option (List Key → E → Option E)
  pub chunk_size : ℤ
  pub max_concurrency : ℤ
  pub consistent_read : Bool
  pub parallel : Bool

-- DefaultRetryPolicy
unfoldable pub default_retry_policy : RetryPolicy
default_retry_policy = record {
  max_retries = pos 3;
  initial_delay = pos 100000000;
  max_delay = pos 5000000000;
  backoff_factor = pos 200;
  jitter = pos 25;
}

-- A chunk has as many keys as DynamoDB takes at once, at most.
abbrev pub clamped_size : ℤ → ℤ
clamped_size n = if leb_ℤ n (pos 0) || ltb_ℤ (pos 100) n then pos 100 else n

module _ {Key E : Type 0} where
  -- DefaultBatchGetOptions
  unfoldable pub default_batch_get_options : BatchGetOptions Key E
  unfolding default_retry_policy
  default_batch_get_options = record {
    retry_policy = some default_retry_policy;
    progress_callback = false;
    on_chunk_error = none;
    chunk_size = pos 100;
    max_concurrency = pos 4;
    consistent_read = false;
    parallel = false;
  }

  abbrev pub alone : BatchGetOptions Key E → BatchGetOptions Key E
  alone opts = record opts { parallel = false; max_concurrency = pos 1 }

  -- normalizeBatchGetOptions of options that are given
  abbrev pub normalized : BatchGetOptions Key E → BatchGetOptions Key E
  normalized opts =
      let sized = record opts { chunk_size = clamped_size opts.chunk_size } in
      if not opts.parallel || leb_ℤ opts.max_concurrency (pos 1) then alone sized else sized

  -- normalizeBatchGetOptions
  unfoldable pub normalize_batch_get_options :
      Option (BatchGetOptions Key E) → BatchGetOptions Key E
  unfolding default_batch_get_options
  normalize_batch_get_options none = normalized default_batch_get_options
  normalize_batch_get_options (some opts) = normalized opts
