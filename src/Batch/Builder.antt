-- ===== src/Batch/Builder.antt =====
-- pkg/query/batch_get.go: the builder of a batch get, its methods and its run.
use table_theory.Base.{true, false, Option, some, List, [], ◌∷◌, Text, Result, if◌then◌else◌}
use table_theory.Base.Int.{ℤ, pos, ltb_ℤ}
use table_theory.Query.State.{Query, select}
use table_theory.Batch.Options.{RetryPolicy, default_batch_get_options}
use table_theory.Batch.Keys.{Key, Error}
use table_theory.Batch.Align.{Item}
use table_theory.Batch.Get.{Options, BatchGetChunk, Executor, batch_get_with_options}

-- struct batchGetBuilder
pub record BatchGetBuilder : Type 0 where
  pub query : Query
  pub opts : Options
  pub keys : List Key
  pub projection : List Text

-- Query.BatchGetBuilder
unfoldable pub batch_get_builder : Query → BatchGetBuilder
unfolding default_batch_get_options
batch_get_builder q = record {
  query = q;
  opts = default_batch_get_options;
  keys = [];
  projection = [];
}

abbrev with_opts : (Options → Options) → BatchGetBuilder → BatchGetBuilder
with_opts change b = record b { opts = change b.opts }

-- Keys
unfoldable pub set_keys : List Key → BatchGetBuilder → BatchGetBuilder
set_keys keys b = record b { keys = keys }

-- ChunkSize
unfoldable pub set_chunk_size : ℤ → BatchGetBuilder → BatchGetBuilder
set_chunk_size size = with_opts λ o. record o { chunk_size = size }

-- ConsistentRead
unfoldable pub set_consistent_read : BatchGetBuilder → BatchGetBuilder
set_consistent_read = with_opts λ o. record o { consistent_read = true }

-- Parallel
unfoldable pub set_parallel : ℤ → BatchGetBuilder → BatchGetBuilder
set_parallel n =
    if ltb_ℤ (pos 1) n
    then with_opts (λ o. record o { parallel = true; max_concurrency = n })
    else with_opts (λ o. record o { parallel = false; max_concurrency = pos 1 })

-- WithRetry
unfoldable pub with_retry : Option RetryPolicy → BatchGetBuilder → BatchGetBuilder
with_retry policy = with_opts λ o. record o { retry_policy = policy }

-- Select
unfoldable pub select_fields : List Text → BatchGetBuilder → BatchGetBuilder
select_fields fields b = record b { projection = fields }

-- OnProgress, of a callback that is not nil
unfoldable pub on_progress : BatchGetBuilder → BatchGetBuilder
on_progress = with_opts λ o. record o { progress_callback = true }

-- OnError
unfoldable pub on_error :
    Option (List Key → Error → Option Error) → BatchGetBuilder → BatchGetBuilder
on_error handler = with_opts λ o. record o { on_chunk_error = handler }

abbrev selected : List Text → Query → Query
selected [] q = q
selected (field ∷ fields) q = select (field ∷ fields) q

-- Execute
unfoldable pub execute :
    {Store : Type 0}
    → Option (Executor Store)
    → (List BatchGetChunk → List BatchGetChunk)
    → BatchGetBuilder
    → Store
    → Option (Store × Result Error (List Item))
unfolding batch_get_with_options select
execute executor finishing b =
    batch_get_with_options executor finishing (selected b.projection b.query) b.keys (some b.opts)
