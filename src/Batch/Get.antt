-- ===== src/Batch/Get.antt =====
-- pkg/query/batch_get.go: the chunks of a batch get and the run of them. The executor is a parameter
-- with a state behind it. Chunks that run in parallel write to different places and hold the lock for
-- each write, so a run of them is their run in the order in which they finish, which is a parameter.
-- The executor sees its calls in that order too.
pub mod Chunks
pub mod Numbered
pub mod Complete
pub mod Aligned
use mathlib.Core.Option
use table_theory.Base.{
  ℕ, zero, suc, ◌+◌, Bool, false, ◌||◌, ◌&&◌, Option, none, some, List, [], ◌∷◌, ◌++◌, map, Text,
  Assoc, Result, ok, err, take, drop, replicate, length, if◌then◌else◌,
}
use table_theory.Base.Int.{pos, pos_part, ltb_ℤ}
use table_theory.Expr.{AttributeValue, new_builder}
use table_theory.Expr.Filters.{add_projection}
use table_theory.Expr.Components.{build}
use table_theory.Query.State.{Query, ModelMetadata}
use table_theory.Batch.Options.{BatchGetOptions, normalize_batch_get_options}
use table_theory.Batch.Keys.{
  Key, BatchKeySpec, Error, recorded, metadata_required, no_keys, unsupported,
  convert_batch_get_keys,
}
use table_theory.Batch.Align.{Item, Places, align_chunk_results, flatten_batch_get_results}

-- struct CompiledBatchGet
pub record CompiledBatchGet : Type 0 where
  pub table_name : Text
  pub keys : List (Assoc AttributeValue)
  pub projection_expression : Text
  pub expression_attribute_names : Assoc Text
  pub consistent_read : Bool

-- struct batchGetChunk; the originals are those of the keys.
pub record BatchGetChunk : Type 0 where
  pub request : CompiledBatchGet
  pub keys : List BatchKeySpec

abbrev pub Options : Type 0
Options = BatchGetOptions Key Error

abbrev pub Projection : Type 0
Projection = Text × Assoc Text

-- buildBatchGetProjection; `none` is a panic of Build.
unfoldable pub build_batch_get_projection : List Text → Option Projection
unfolding new_builder add_projection build
build_batch_get_projection [] = some ([], [])
build_batch_get_projection (field ∷ fields) =
    Option.map (λ c. (c.projection_expression, c.expression_attribute_names))
      (build (add_projection (field ∷ fields) new_builder))

-- The windows of a list, of a size, with fuel for each.
unfoldable pub windows {ℓ} : {A : Type ℓ} → ℕ → ℕ → List A → List (List A)
windows zero size xs = []
windows (suc fuel) size [] = []
windows (suc fuel) size (x ∷ xs) = take size (x ∷ xs) ∷ windows fuel size (drop size (x ∷ xs))

unfoldable pub chunk_of : Text → Bool → Projection → List BatchKeySpec → BatchGetChunk
chunk_of table consistent (projection, names) window = record {
  request = record {
    table_name = table;
    keys = map (λ spec. spec.attrs) window;
    projection_expression = projection;
    expression_attribute_names = names;
    consistent_read = consistent;
  };
  keys = window;
}

-- buildBatchGetChunks
unfoldable pub build_batch_get_chunks :
    Text → List BatchKeySpec → ℕ → Bool → Projection → List BatchGetChunk
unfolding windows chunk_of
build_batch_get_chunks table specs size consistent projection =
    map (chunk_of table consistent projection) (windows (length specs) size specs)

-- What a run has done: the places, the number of the items, and the reports of the progress.
pub record Done : Type 0 where
  pub ordered : Places
  pub retrieved : ℕ
  pub reports : List (ℕ × ℕ)

-- makeProgressReporter: one report
unfoldable pub report : Bool → ℕ → ℕ → Done → Done
report callback total matched done =
    let retrieved = if callback then done.retrieved + matched else done.retrieved in
    record done {
      retrieved = retrieved;
      reports = if callback then done.reports ++ (retrieved, total) ∷ [] else done.reports;
    }

-- BatchExecutor.ExecuteBatchGet, over a state
abbrev pub Executor : Type 0 → Type 0
Executor Store = CompiledBatchGet → Options → Store → Store × Result Error (List Item)

abbrev pub Outcome : Type 0 → Type 0
Outcome Store = Store × Done × Option Error

abbrev handled : Option (List Key → Error → Option Error) → List Key → Error → Option Error
handled none originals e = some e
handled (some handler) originals e = handler originals e

abbrev pub first_of : Option Error → Option Error → Option Error
first_of none other = other
first_of (some e) other = some e

abbrev pub started : ℕ → Done
started n = record { ordered = replicate n none; retrieved = 0; reports = [] }

module _ {Store : Type 0} where
  abbrev pub received :
      Options → ℕ → BatchGetChunk → Done → Store × Result Error (List Item) → Outcome Store
  received opts total chunk done (store, err e) =
      (store, done, handled opts.on_chunk_error (map (λ spec. spec.original) chunk.keys) e)
  received opts total chunk done (store, ok items) =
      let (ordered, matched) =
        align_chunk_results chunk.keys (map (λ item. (item, false)) items) done.ordered in
      (store, report opts.progress_callback total matched (record done { ordered = ordered }), none)

  -- processChunk
  unfoldable pub process_chunk :
      Executor Store → Options → ℕ → BatchGetChunk → Store → Done → Outcome Store
  unfolding align_chunk_results report
  process_chunk executor opts total chunk store done =
      received opts total chunk done (executor chunk.request opts store)

  abbrev pub unless_failed : Outcome Store → (Store → Done → Outcome Store) → Outcome Store
  unless_failed (store, done, none) next = next store done
  unless_failed (store, done, some e) next = (store, done, some e)

  -- The chunks one after the other, until one fails.
  unfoldable pub run_chunks :
      Executor Store → Options → ℕ → List BatchGetChunk → Store → Done → Outcome Store
  unfolding process_chunk
  run_chunks executor opts total [] store done = (store, done, none)
  run_chunks executor opts total (chunk ∷ chunks) store done =
      unless_failed (process_chunk executor opts total chunk store done)
        (λ store done. run_chunks executor opts total chunks store done)

  -- runChunksParallel, of the chunks in the order in which they finish: all of them run, and the error
  -- that came first is returned.
  unfoldable pub run_chunks_parallel :
      Executor Store → Options → ℕ → List BatchGetChunk → Store → Done → Outcome Store
  unfolding process_chunk
  run_chunks_parallel executor opts total [] store done = (store, done, none)
  run_chunks_parallel executor opts total (chunk ∷ chunks) store done =
      let (store, done, e) = process_chunk executor opts total chunk store done in
      let (store, done, e') = run_chunks_parallel executor opts total chunks store done in
      (store, done, first_of e e')

  abbrev pub flattened : Outcome Store → Store × Result Error (List Item)
  flattened (store, done, none) = (store, ok (flatten_batch_get_results done.ordered))
  flattened (store, done, some e) = (store, err e)

  -- executeBatchGetChunks, where the chunks, when they run in parallel, finish in the order that
  -- `finishing` gives
  unfoldable pub execute_batch_get_chunks :
      Executor Store
      → (List BatchGetChunk → List BatchGetChunk)
      → List BatchGetChunk
      → ℕ
      → Options
      → Store
      → Store × Result Error (List Item)
  unfolding run_chunks run_chunks_parallel flatten_batch_get_results
  execute_batch_get_chunks executor finishing chunks total opts store =
      let alone = run_chunks executor opts total chunks store (started total) in
      let together =
        run_chunks_parallel executor opts total (finishing chunks) store (started total) in
      flattened (if opts.parallel && ltb_ℤ (pos 1) opts.max_concurrency then together else alone)

  abbrev pub run_plan :
      Executor Store
      → (List BatchGetChunk → List BatchGetChunk)
      → Query
      → ModelMetadata
      → Options
      → Store
      → List BatchKeySpec
      → Projection
      → Store × Result Error (List Item)
  run_plan executor finishing q m opts store specs projection =
      let chunks =
        build_batch_get_chunks m.table_name specs (pos_part opts.chunk_size)
          (opts.consistent_read || q.consistent_read) projection in
      execute_batch_get_chunks executor finishing chunks (length specs) opts store

  -- buildBatchGetPlan and what follows it, of the specifications of the keys
  abbrev pub planned :
      Executor Store
      → (List BatchGetChunk → List BatchGetChunk)
      → Query
      → ModelMetadata
      → Options
      → Store
      → Result Error (List BatchKeySpec)
      → Option (Store × Result Error (List Item))
  planned executor finishing q m opts store (err e) = some (store, err e)
  planned executor finishing q m opts store (ok specs) =
      Option.map (run_plan executor finishing q m opts store specs)
        (build_batch_get_projection q.projection)

  abbrev pub checked :
      Option (Executor Store)
      → (List BatchGetChunk → List BatchGetChunk)
      → Query
      → Option Error
      → Option ModelMetadata
      → List Key
      → Options
      → Store
      → Option (Store × Result Error (List Item))
  checked executor finishing q (some e) m keys opts store = some (store, err e)
  checked executor finishing q none none keys opts store = some (store, err metadata_required)
  checked executor finishing q none (some m) [] opts store = some (store, err no_keys)
  checked none finishing q none (some m) (key ∷ keys) opts store = some (store, err unsupported)
  checked (some executor) finishing q none (some m) (key ∷ keys) opts store =
      planned executor finishing q m opts store
        (convert_batch_get_keys m q.converter 0 (key ∷ keys))

  -- BatchGetWithOptions into a slice of items; `none` is a panic of Build.
  unfoldable pub batch_get_with_options :
      Option (Executor Store)
      → (List BatchGetChunk → List BatchGetChunk)
      → Query
      → List Key
      → Option Options
      → Store
      → Option (Store × Result Error (List Item))
  unfolding convert_batch_get_keys build_batch_get_chunks execute_batch_get_chunks
      build_batch_get_projection normalize_batch_get_options
  batch_get_with_options executor finishing q keys opts store =
      checked executor finishing q (Option.map recorded q.builder_err) q.metadata keys
        (normalize_batch_get_options opts) store
