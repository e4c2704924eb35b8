-- ===== src/Base/Positions.antt =====
-- Where a character stands in a text: what `index_of`, `last_index_of`, `split` and `contains` find.
use table_theory.Base.{
  ℕ, zero, suc, ◌-◌, ◌<◌, ◌≡◌, refl, ap, false, some, List, [], ◌∷◌, ◌++◌, arith, Text, contains,
  split, starts_with, index_of, last_index_of, take, drop, get_elem?, Option-cases,
}

pub index_of-get_elem? : (x : ℕ) (s : Text) (i : ℕ) → index_of x s ≡ some i → get_elem? s i ≡ some x
unfolding index_of
index_of-get_elem? x [] i h = cc
index_of-get_elem? x (c ∷ s) zero h = ground (arith, Option-cases (index_of x s))
index_of-get_elem? x (c ∷ s) (suc i) h = ground (arith, index_of-get_elem? x s i)

pub last_index_of-get_elem? :
    (x : ℕ) (s : Text) (i : ℕ) → last_index_of x s ≡ some i → get_elem? s i ≡ some x
unfolding last_index_of
last_index_of-get_elem? x [] i h = cc
last_index_of-get_elem? x (c ∷ s) zero h = ground (arith, Option-cases (last_index_of x s))
last_index_of-get_elem? x (c ∷ s) (suc i) h = ground (arith, last_index_of-get_elem? x s i)

module _ {ℓ} {A : Type ℓ} where
  -- An element parts its list in two.
  pub get_elem?-split :
      (s : List A) (i : ℕ) (x : A) → get_elem? s i ≡ some x → take i s ++ x ∷ drop (suc i) s ≡ s
  get_elem?-split [] i x h = cc
  get_elem?-split (c ∷ s) zero x h = cc
  get_elem?-split (c ∷ s) (suc i) x h = ap (λ r. c ∷ r) (get_elem?-split s i x h)

  -- So it does for a longer prefix.
  pub take-split :
      (s : List A) (i j : ℕ) (x : A)
      → get_elem? s i ≡ some x
      → i < j
      → take j s ≡ take i s ++ x ∷ take (j - suc i) (drop (suc i) s)
  take-split [] i j x h lt = cc
  take-split (c ∷ s) i zero x h lt = absurd (omega arith)
  take-split (c ∷ s) zero (suc j) x h lt = let e : suc j - 1 ≡ j = omega arith in rw e (cc h)
  take-split (c ∷ s) (suc i) (suc j) x h lt =
      let e : suc j - suc (suc i) ≡ j - suc i = omega arith in
      rw e (ap (λ r. c ∷ r) (take-split s i j x h (omega arith)))

-- A text without the separator is one piece.
pub split_whole : (x : ℕ) (s : Text) → contains s (x ∷ []) ≡ false → split x s ≡ s ∷ []
unfolding contains starts_with split
split_whole x [] h = refl
split_whole x (c ∷ s) h = ground (arith, split_whole x s)
