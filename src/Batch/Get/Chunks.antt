-- ===== src/Batch/Get/Chunks.antt =====
-- pkg/query/batch_get.go: how the chunks of a batch get divide its keys.
use mathlib.Core.List.{flatten}
use table_theory.Base.{
  ℕ, zero, suc, ◌≤◌, ◌<◌, List, [], ◌∷◌, Option, map, Text, Bool, ◌≡◌, refl, ◌∙◌, Bool-cases, inl,
  inr, not, ◌||◌, none, some, length, drop, take-append-drop, length-take, length-drop, All, arith,
}
use table_theory.Base.Int.{ℤ, pos, pos_part, leb_ℤ}
use table_theory.Batch.Options.{clamped_size, normalize_batch_get_options}
use table_theory.Batch.Keys.{BatchKeySpec}
use table_theory.Batch.Get.{
  Options, Projection, BatchGetChunk, windows, chunk_of, build_batch_get_chunks,
}

clamped_size-bounds : (n : ℤ) → (0 < pos_part (clamped_size n)) × (pos_part (clamped_size n) ≤ 100)
clamped_size-bounds n = ground arith

given :
    (opts : Options)
    → let size = pos_part (normalize_batch_get_options (some opts)).chunk_size in
      (0 < size) × (size ≤ 100)
unfolding normalize_batch_get_options
given opts = elim (Bool-cases (not opts.parallel || leb_ℤ opts.max_concurrency (pos 1))) [
  | inl e ↦ rw e (clamped_size-bounds opts.chunk_size)
  | inr e ↦ rw e (clamped_size-bounds opts.chunk_size)
]

pub normalize-bounds :
    (opts : Option Options)
    → let size = pos_part (normalize_batch_get_options opts).chunk_size in (0 < size) × (size ≤ 100)
unfolding normalize_batch_get_options
normalize-bounds none = ground arith
normalize-bounds (some opts) = given opts

no_room : {n : ℕ} → suc n ≤ 0 → ⊥
no_room h = omega arith

module _ {ℓ} {A : Type ℓ} where
  flatten-windows :
      (fuel size : ℕ) (xs : List A)
      → 0 < size
      → length xs ≤ fuel
      → flatten (windows fuel size xs) ≡ xs
  unfolding windows flatten
  flatten-windows zero size [] h f = refl
  flatten-windows zero size (x ∷ xs) h f = elim (no_room f) [ ]
  flatten-windows (suc fuel) size [] h f = refl
  flatten-windows (suc fuel) size (x ∷ xs) h f =
      let rest = drop size (x ∷ xs) in
      rw (flatten-windows fuel size rest h (omega (arith, length-drop size (x ∷ xs))))
        (take-append-drop size (x ∷ xs))

  windows-lengths :
      (fuel size : ℕ) (xs : List A)
      → 0 < size
      → All (λ w. (0 < length w) × (length w ≤ size)) (windows fuel size xs)
  unfolding windows
  windows-lengths zero size xs h = tt
  windows-lengths (suc fuel) size [] h = tt
  windows-lengths (suc fuel) size (x ∷ xs) h = (
    ((omega (arith, length-take size (x ∷ xs))), (omega (arith, length-take size (x ∷ xs)))),
    windows-lengths fuel size (drop size (x ∷ xs)) h,
  )

-- A chunk is a request of one to a hundred keys, those of its specifications.
pub IsRequest : BatchGetChunk → Type 0
IsRequest chunk =
    ((0 < length chunk.keys) × (length chunk.keys ≤ 100))
    × (chunk.request.keys ≡ map (λ spec. spec.attrs) chunk.keys)

module _ (table : Text) (consistent : Bool) (projection : Projection) where
  flatten-keys :
      (ws : List (List BatchKeySpec))
      → flatten (map (λ c. c.keys) (map (chunk_of table consistent projection) ws)) ≡ flatten ws
  unfolding chunk_of flatten
  flatten-keys [] = refl
  flatten-keys (w ∷ ws) = rw (flatten-keys ws) refl

  chunks-AreRequests :
      (size : ℕ) (ws : List (List BatchKeySpec))
      → size ≤ 100
      → All (λ w. (0 < length w) × (length w ≤ size)) ws
      → All IsRequest (map (chunk_of table consistent projection) ws)
  unfolding IsRequest chunk_of
  chunks-AreRequests size [] h ls = tt
  chunks-AreRequests size (w ∷ ws) h ls =
      (((ls.0.0, omega (arith, ls.0.1)), refl), chunks-AreRequests size ws h ls.1)

  -- With the chunk size of options that are normalized, whatever they were, the chunks of a batch get
  -- hold its keys in their order, each key once, and each chunk asks for one to a hundred keys, which
  -- are those whose places it knows.
  pub build_batch_get_chunks-IsPartition :
      (opts : Option Options) (specs : List BatchKeySpec)
      → let size = pos_part (normalize_batch_get_options opts).chunk_size in
        let chunks = build_batch_get_chunks table specs size consistent projection in
        (flatten (map (λ c. c.keys) chunks) ≡ specs) × All IsRequest chunks
  unfolding build_batch_get_chunks
  build_batch_get_chunks-IsPartition opts specs =
      let (low, high) = normalize-bounds opts in
      let size = pos_part (normalize_batch_get_options opts).chunk_size in
      (
        flatten-keys (windows (length specs) size specs)
            ∙ flatten-windows (length specs) size specs low (omega arith),
        chunks-AreRequests size _ high (windows-lengths (length specs) size specs low),
      )
