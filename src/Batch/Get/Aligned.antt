-- ===== src/Batch/Get/Aligned.antt =====
-- pkg/query/batch_get.go: the items of a batch get stand in the order of the keys that asked for them.

use table_theory.Base.Int.{pos, pos_part, ltb_ℤ}
use table_theory.Base.{
  map-some, ℕ, zero, suc, true, false, Bool-cases, inl, inr, Option, Option-cases, none, some,
  subst, List, [], ◌∷◌, map, Assoc, ◌≡◌, refl, sym, ◌||◌, ◌&&◌, Result, ok, err, length, get_elem?,
  set, replicate, All,
}
use table_theory.Expr.{AttributeValue}
use table_theory.Query.State.{Query, ModelMetadata}
use table_theory.Batch.Options.{normalize_batch_get_options}
use table_theory.Batch.Keys.{Key, BatchKeySpec, Error, convert_batch_get_keys}
use table_theory.Batch.Align.{
  Item, Slot, Places, key_matches_item, find_matching_item, further, align_chunk_results,
  flatten_batch_get_results,
}
use table_theory.Batch.Get.Numbered.{
  IsPlaced, convert_batch_get_keys-IsNumbered, IsNumbered-ArePlaced, All-flatten,
}
use table_theory.Batch.Get.Chunks.{build_batch_get_chunks-IsPartition}
use table_theory.Batch.Get.{
  Options, BatchGetChunk, Done, Executor, Outcome, report, received, process_chunk, run_chunks,
  run_chunks_parallel, execute_batch_get_chunks, planned, checked, batch_get_with_options,
  flattened, started, Projection, build_batch_get_chunks, unless_failed,
}

-- Each place is free or has an item that matches its key.
abbrev pub Fits : List BatchKeySpec → Places → Type 0
Fits [] [] = Unit
Fits (key ∷ keys) (none ∷ places) = Fits keys places
Fits (key ∷ keys) (some item ∷ places) = (key_matches_item key.attrs item ≡ true) × Fits keys places
Fits _ _ = ⊥

-- Each item matches a key, a later item a later key.
pub data IsAligned : List BatchKeySpec → List Item → Type 0 where
  nothing : IsAligned [] []
  missing :
      (key : BatchKeySpec) {keys : List BatchKeySpec} {items : List Item}
      → IsAligned keys items
      → IsAligned (key ∷ keys) items
  found :
      (key : BatchKeySpec) (item : Item) {keys : List BatchKeySpec} {items : List Item}
      → key_matches_item key.attrs item ≡ true
      → IsAligned keys items
      → IsAligned (key ∷ keys) (item ∷ items)

Fits-replicate : (specs : List BatchKeySpec) → Fits specs (replicate (length specs) none)
Fits-replicate [] = tt
Fits-replicate (key ∷ specs) = Fits-replicate specs

Fits-set :
    (specs : List BatchKeySpec) (places : Places) (i : ℕ) (key : BatchKeySpec) (item : Item)
    → Fits specs places
    → get_elem? specs i ≡ some key
    → key_matches_item key.attrs item ≡ true
    → Fits specs (set places i (some item))
Fits-set [] [] i key item h e m = tt
Fits-set [] (p ∷ places) i key item h e m = elim h [ ]
Fits-set (k ∷ specs) [] i key item h e m = elim h [ ]
Fits-set (k ∷ specs) (none ∷ places) zero key item h e m =
    let same : k ≡ key = cc in (subst (λ k. key_matches_item k.attrs item ≡ true) (sym same) m, h)
Fits-set (k ∷ specs) (some old ∷ places) zero key item h e m =
    let same : k ≡ key = cc in (subst (λ k. key_matches_item k.attrs item ≡ true) (sym same) m, h.1)
Fits-set (k ∷ specs) (none ∷ places) (suc i) key item h e m = Fits-set specs places i key item h e m
Fits-set (k ∷ specs) (some old ∷ places) (suc i) key item h e m =
    (h.0, Fits-set specs places i key item h.1 e m)

Fits-IsAligned :
    (specs : List BatchKeySpec) (places : Places)
    → Fits specs places
    → IsAligned specs (flatten_batch_get_results places)
unfolding flatten_batch_get_results
Fits-IsAligned [] [] h = nothing
Fits-IsAligned [] (p ∷ places) h = elim h [ ]
Fits-IsAligned (key ∷ specs) [] h = elim h [ ]
Fits-IsAligned (key ∷ specs) (none ∷ places) h = missing key (Fits-IsAligned specs places h)
Fits-IsAligned (key ∷ specs) (some item ∷ places) h =
    found key item h.0 (Fits-IsAligned specs places h.1)

further-found :
    (slot : Slot) (o : Option (Item × List Slot)) (item : Item) (used : List Slot)
    → further slot o ≡ some (item, used)
    → (later : List Slot) × (o ≡ some (item, later))
further-found slot none item used e = cc
further-found slot (some (a, later)) item used e = let same : a ≡ item = cc in (later, rw same refl)

-- What is found for a key matches it.
find_matching_item-matches :
    (key : Assoc AttributeValue) (slots : List Slot) (item : Item) (used : List Slot)
    → find_matching_item key slots ≡ some (item, used)
    → key_matches_item key item ≡ true
unfolding find_matching_item
find_matching_item-matches key [] item used e = cc
find_matching_item-matches key ((other, true) ∷ slots) item used e =
    let (later, e') = further-found (other, true) _ item used e in
    find_matching_item-matches key slots item later e'
find_matching_item-matches key ((other, false) ∷ slots) item used e =
    elim (Bool-cases (key_matches_item key other)) [
      | inl m ↦ let same : other ≡ item = cc in subst (λ a. key_matches_item key a ≡ true) same m
      | inr m ↦
          (let passed : further (other, false) (find_matching_item key slots) ≡ some (item, used) =
              rw m at e in
            let (later, e') = further-found (other, false) _ item used passed in
            find_matching_item-matches key slots item later e')
    ]

align-Fits :
    (specs keys : List BatchKeySpec) (slots : List Slot) (places : Places)
    → All (IsPlaced specs) keys
    → Fits specs places
    → Fits specs (align_chunk_results keys slots places).0
unfolding align_chunk_results
align-Fits specs [] slots places hs h = h
align-Fits specs (key ∷ keys) slots places hs h =
    elim (Option-cases (find_matching_item key.attrs slots)) [
      | inl e ↦ rw e (align-Fits specs keys slots places hs.1 h)
      | inr ((item, used), e) ↦ rw e (
          align-Fits specs keys used (set places key.index (some item)) hs.1 (
            Fits-set specs places key.index key item h hs.0
              (find_matching_item-matches key.attrs slots item used e)))
    ]

-- The places of what a run has done.
abbrev places_of : {Store : Type 0} → Outcome Store → Places
places_of (store, done, e) = done.ordered

module _ {Store : Type 0} (executor : Executor Store) (opts : Options) (total : ℕ) where
  module _ (specs : List BatchKeySpec) where
    abbrev KeysArePlaced : BatchGetChunk → Type 0
    KeysArePlaced chunk = All (IsPlaced specs) chunk.keys

    received-Fits :
        (chunk : BatchGetChunk) (done : Done) (r : Store × Result Error (List Item))
        → KeysArePlaced chunk
        → Fits specs done.ordered
        → Fits specs (places_of (received opts total chunk done r))
    unfolding report
    received-Fits chunk done (store, err e) hs h = h
    received-Fits chunk done (store, ok items) hs h =
        align-Fits specs chunk.keys (map (λ item. (item, false)) items) done.ordered hs h

    process-Fits :
        (chunk : BatchGetChunk) (store : Store) (done : Done)
        → KeysArePlaced chunk
        → Fits specs done.ordered
        → Fits specs (places_of (process_chunk executor opts total chunk store done))
    unfolding process_chunk
    process-Fits chunk store done hs h =
        received-Fits chunk done (executor chunk.request opts store) hs h

    unless_failed-Fits :
        (out : Outcome Store) (next : Store → Done → Outcome Store)
        → Fits specs (places_of out)
        → ((store : Store) (done : Done)
            → Fits specs done.ordered
            → Fits specs (places_of (next store done)))
        → Fits specs (places_of (unless_failed out next))
    unless_failed-Fits (store, done, none) next h k = k store done h
    unless_failed-Fits (store, done, some e) next h k = h

    run_chunks-Fits :
        (chunks : List BatchGetChunk) (store : Store) (done : Done)
        → All KeysArePlaced chunks
        → Fits specs done.ordered
        → Fits specs (places_of (run_chunks executor opts total chunks store done))
    unfolding run_chunks
    run_chunks-Fits [] store done hs h = h
    run_chunks-Fits (chunk ∷ chunks) store done hs h =
        unless_failed-Fits (process_chunk executor opts total chunk store done) _
          (process-Fits chunk store done hs.0 h)
          (λ store done. run_chunks-Fits chunks store done hs.1)

    run_chunks_parallel-Fits :
        (chunks : List BatchGetChunk) (store : Store) (done : Done)
        → All KeysArePlaced chunks
        → Fits specs done.ordered
        → Fits specs (places_of (run_chunks_parallel executor opts total chunks store done))
    unfolding run_chunks_parallel
    run_chunks_parallel-Fits [] store done hs h = h
    run_chunks_parallel-Fits (chunk ∷ chunks) store done hs h =
        let first = process_chunk executor opts total chunk store done in
        run_chunks_parallel-Fits chunks first.0 first.1 hs.1 (process-Fits chunk store done hs.0 h)

-- What the keys of a batch get turn into, and the items that stand in their order.
abbrev pub AnswersInOrder : Query → ModelMetadata → List Key → List Item → Type 0
AnswersInOrder q m keys items =
    (specs : List BatchKeySpec) × (convert_batch_get_keys m q.converter 0 keys ≡ ok specs)
    × (map (λ spec. spec.original) specs ≡ keys)
    × IsAligned specs items

-- Only chunks of a list run, in whatever order.
abbrev pub RunsOnly : (List BatchGetChunk → List BatchGetChunk) → Type 1
RunsOnly finishing =
    (P : BatchGetChunk → Type 0) (chunks : List BatchGetChunk)
    → All P chunks
    → All P (finishing chunks)

module _ {Store : Type 0} (executor : Executor Store)
    (finishing : List BatchGetChunk → List BatchGetChunk) (only : RunsOnly finishing) where
  flattened-IsAligned :
      (specs : List BatchKeySpec) (out : Outcome Store) {store : Store} {items : List Item}
      → Fits specs (places_of out)
      → flattened out ≡ (store, ok items)
      → IsAligned specs items
  flattened-IsAligned specs (store', done, none) {store} {items} h e =
      let same : flatten_batch_get_results done.ordered ≡ items = cc in
      subst (IsAligned specs) same (Fits-IsAligned specs done.ordered h)
  flattened-IsAligned specs (store', done, some error) h e = cc

  execute-IsAligned :
      (specs : List BatchKeySpec) (chunks : List BatchGetChunk) (opts : Options) (store : Store)
      {store' : Store} {items : List Item}
      → All (λ chunk. All (IsPlaced specs) chunk.keys) chunks
      → execute_batch_get_chunks executor finishing chunks (length specs) opts store
        ≡ (store', ok items)
      → IsAligned specs items
  unfolding execute_batch_get_chunks
  execute-IsAligned specs chunks opts store hs e =
      let start = Fits-replicate specs in
      let total = length specs in
      elim (Bool-cases (opts.parallel && ltb_ℤ (pos 1) opts.max_concurrency)) [
        | inl t ↦
            flattened-IsAligned specs
              (run_chunks_parallel executor opts total (finishing chunks) store (started total))
              (run_chunks_parallel-Fits executor opts total specs (finishing chunks) store
                (started total) (only _ chunks hs) start)
              (rw t at e)
        | inr f ↦
            flattened-IsAligned specs (run_chunks executor opts total chunks store (started total))
              (run_chunks-Fits executor opts total specs chunks store (started total) hs start)
              (rw f at e)
      ]

  chunks-ArePlaced :
      (m : ModelMetadata) (q : Query) (keys : List Key) (specs : List BatchKeySpec)
      (opts : Option Options) (projection : Projection)
      → let normal = normalize_batch_get_options opts in
        let chunks =
          build_batch_get_chunks m.table_name specs
            (pos_part normal.chunk_size)
            (normal.consistent_read || q.consistent_read)
            projection in
        convert_batch_get_keys m q.converter 0 keys ≡ ok specs
        → All (λ chunk. All (IsPlaced specs) chunk.keys) chunks
  chunks-ArePlaced m q keys specs opts projection e =
      let numbered = convert_batch_get_keys-IsNumbered m q.converter 0 keys specs e in
      let whole = build_batch_get_chunks-IsPartition m.table_name _ projection opts specs in
      All-flatten (IsPlaced specs) (λ chunk. chunk.keys) _
        (subst (All (IsPlaced specs)) (sym whole.0) (IsNumbered-ArePlaced specs numbered.0))

  planned-AnswersInOrder :
      (q : Query) (m : ModelMetadata) (keys : List Key) (opts : Option Options) (store : Store)
      (r : Result Error (List BatchKeySpec)) {store' : Store} {items : List Item}
      → convert_batch_get_keys m q.converter 0 keys ≡ r
      → planned executor finishing q m (normalize_batch_get_options opts) store r
        ≡ some (store', ok items)
      → AnswersInOrder q m keys items
  planned-AnswersInOrder q m keys opts store (err error) h e = cc
  planned-AnswersInOrder q m keys opts store (ok specs) h e =
      let (projection, e') = map-some _ _ _ e in
      (
        specs,
        h,
        (convert_batch_get_keys-IsNumbered m q.converter 0 keys specs h).1,
        execute-IsAligned specs _ (normalize_batch_get_options opts) store
            (chunks-ArePlaced m q keys specs opts projection h) e',
      )

module _ {Store : Type 0} (finishing : List BatchGetChunk → List BatchGetChunk)
    (only : RunsOnly finishing) where
  checked-AnswersInOrder :
      (executor : Option (Executor Store)) (q : Query) (recorded : Option Error)
      (metadata : Option ModelMetadata) (keys : List Key) (opts : Option Options) (store : Store)
      {store' : Store} {items : List Item}
      → checked executor finishing q recorded metadata keys (normalize_batch_get_options opts) store
        ≡ some (store', ok items)
      → (m : ModelMetadata) × (metadata ≡ some m) × AnswersInOrder q m keys items
  checked-AnswersInOrder executor q (some e) m keys opts store h = cc
  checked-AnswersInOrder executor q none none keys opts store h = cc
  checked-AnswersInOrder executor q none (some m) [] opts store h = cc
  checked-AnswersInOrder none q none (some m) (key ∷ keys) opts store h = cc
  checked-AnswersInOrder (some executor) q none (some m) (key ∷ keys) opts store h =
      (m, refl, planned-AnswersInOrder executor finishing only q m (key ∷ keys) opts store _ refl h)

  -- When a batch get returns items, whatever the executor answers, in one request or in many, in
  -- sequence or in parallel, the keys were all converted, and the items stand in the order of the
  -- keys that were asked for: each item matches the attributes of a key, and the item after it those
  -- of a later key. The chunks that ran in parallel are chunks of the batch get.
  pub batch_get-AnswersInOrder :
      (executor : Option (Executor Store)) (q : Query) (keys : List Key) (opts : Option Options)
      (store : Store) {store' : Store} {items : List Item}
      → batch_get_with_options executor finishing q keys opts store ≡ some (store', ok items)
      → (m : ModelMetadata) × (q.metadata ≡ some m) × AnswersInOrder q m keys items
  unfolding batch_get_with_options
  batch_get-AnswersInOrder executor q keys opts store h =
      checked-AnswersInOrder executor q _ q.metadata keys opts store h
