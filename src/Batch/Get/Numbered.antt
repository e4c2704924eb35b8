-- ===== src/Batch/Get/Numbered.antt =====
-- pkg/query/batch_get.go: the specifications of the keys know their places.
use mathlib.Core.List.{flatten, append_assoc}
use table_theory.Base.{
  ℕ, suc, Option, some, List, [], ◌∷◌, ◌++◌, map, ◌≡◌, refl, sym, ap, subst, ok, >>=-eq-ok, map_err,
  length, length-append, get_elem?, All, arith,
}
use table_theory.Expr.{ConverterLookup}
use table_theory.Query.State.{ModelMetadata}
use table_theory.Batch.Keys.{
  Key, BatchKeySpec, convert_batch_get_keys, build_batch_get_key, invalid_key,
}

-- A key knows its place.
abbrev pub IsPlaced : List BatchKeySpec → BatchKeySpec → Type 0
IsPlaced specs key = get_elem? specs key.index ≡ some key

abbrev pub IsNumbered : ℕ → List BatchKeySpec → Type 0
IsNumbered i [] = Unit
IsNumbered i (key ∷ specs) = (key.index ≡ i) × IsNumbered (suc i) specs

module _ (m : ModelMetadata) (converter : Option ConverterLookup) where
  -- The keys that a conversion gives are those that it was given, numbered.
  pub convert_batch_get_keys-IsNumbered :
      (i : ℕ) (keys : List Key) (specs : List BatchKeySpec)
      → convert_batch_get_keys m converter i keys ≡ ok specs
      → IsNumbered i specs × (map (λ spec. spec.original) specs ≡ keys)
  unfolding convert_batch_get_keys
  convert_batch_get_keys-IsNumbered i [] [] e = (tt, refl)
  convert_batch_get_keys-IsNumbered i [] (spec ∷ specs) e = cc
  convert_batch_get_keys-IsNumbered i (key ∷ keys) specs e =
      let (attrs, _, e1) =
        >>=-eq-ok (map_err (invalid_key i) (build_batch_get_key m converter key)) _ e in
      let (rest, e2, e3) = >>=-eq-ok (convert_batch_get_keys m converter (suc i) keys) _ e1 in
      let (numbered, originals) = convert_batch_get_keys-IsNumbered (suc i) keys rest e2 in
      let first : BatchKeySpec = record { attrs = attrs; original = key; index = i } in
      let same : first ∷ rest ≡ specs = cc in
      subst (λ s. IsNumbered i s × (map (λ spec. spec.original) s ≡ key ∷ keys)) same
        ((refl, numbered), ap (◌∷◌ key) originals)

get_elem?-append :
    {A : Type 0} (before : List A) (a : A) (after : List A)
    → get_elem? (before ++ a ∷ after) (length before) ≡ some a
get_elem?-append [] a after = refl
get_elem?-append (b ∷ before) a after = get_elem?-append before a after

numbered-ArePlaced :
    (before specs : List BatchKeySpec)
    → IsNumbered (length before) specs
    → All (IsPlaced (before ++ specs)) specs
numbered-ArePlaced before [] h = tt
numbered-ArePlaced before (key ∷ specs) h =
    let next = before ++ (key ∷ []) in
    let moved : suc (length before) ≡ length next =
      omega (arith, length-append before (key ∷ [])) in
    (
      subst (λ i. get_elem? (before ++ key ∷ specs) i ≡ some key) (sym h.0)
          (get_elem?-append before key specs),
      subst (λ all. All (IsPlaced all) specs) (append_assoc before (key ∷ []) specs)
          (numbered-ArePlaced next specs (subst (λ i. IsNumbered i specs) moved h.1)),
    )

pub IsNumbered-ArePlaced :
    (specs : List BatchKeySpec) → IsNumbered 0 specs → All (IsPlaced specs) specs
IsNumbered-ArePlaced specs h = numbered-ArePlaced [] specs h

module _ {A : Type 0} (P : A → Type 0) where
  split-All : (xs ys : List A) → All P (xs ++ ys) → All P xs × All P ys
  split-All [] ys h = (tt, h)
  split-All (x ∷ xs) ys h = let (l, r) = split-All xs ys h.1 in ((h.0, l), r)

  pub All-flatten :
      {B : Type 0} (part : B → List A) (bs : List B)
      → All P (flatten (map part bs))
      → All (λ b. All P (part b)) bs
  unfolding flatten
  All-flatten part [] h = tt
  All-flatten part (b ∷ bs) h =
      let (l, r) = split-All (part b) (flatten (map part bs)) h in (l, All-flatten part bs r)
