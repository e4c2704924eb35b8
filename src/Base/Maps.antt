-- ===== src/Base/Maps.antt =====
-- Go maps with string keys as association lists. A write to a key that is there keeps its place.
use mathlib.Core.Path.{◌≡◌, refl}
use mathlib.Core.Logic.{◌≢◌}
use mathlib.Core.Option.{Option, none, some}
use mathlib.Core.List.{List, [], ◌∷◌}
use native.Mathlib.Omega.{arith}
use mathlib.Core.Logic.{inl, inr}
use table_theory.Base.Tests.{if◌then◌else◌, Bool-cases}
use table_theory.Base.Strings.{Text, text_eq, text_eq_iff, text_eq_refl, text_eq-false}

abbrev pub Assoc {ℓ} : Type ℓ → Type ℓ
Assoc V = List (Text × V)

module _ {ℓ} {V : Type ℓ} where
  unfoldable pub lookup : Text → Assoc V → Option V
  lookup k [] = none
  lookup k ((j, v) ∷ m) = if text_eq j k then some v else lookup k m

  unfoldable pub insert : Text → V → Assoc V → Assoc V
  insert k v [] = (k, v) ∷ []
  insert k v ((j, w) ∷ m) = if text_eq j k then (k, v) ∷ m else (j, w) ∷ insert k v m

  pub lookup-insert :
      (k j : Text) (v : V) (m : Assoc V)
      → lookup j (insert k v m) ≡ (if text_eq k j then some v else lookup j m)
  unfolding lookup insert
  lookup-insert k j v [] = refl
  lookup-insert k j v ((i, w) ∷ m) = ground (
    arith,
    text_eq_iff k j,
    text_eq_iff i k,
    text_eq_iff i j,
    text_eq_refl k,
    text_eq_refl j,
    lookup-insert k j v m,
  )

module _ {ℓ} {V : Type ℓ} where
  pub lookup-insert_self : (k : Text) (v : V) (m : Assoc V) → lookup k (insert k v m) ≡ some v
  lookup-insert_self k v m = simp (lookup-insert, text_eq_refl)

  pub lookup-insert_ne :
      (k j : Text) (v : V) (m : Assoc V) → k ≢ j → lookup j (insert k v m) ≡ lookup j m
  lookup-insert_ne k j v m h = rw (lookup-insert k j v m, text_eq-false k j h)

-- No key stands twice. Every map that is built by `insert` is such.
abbrev pub HasDistinctKeys {ℓ} : {V : Type ℓ} → Assoc V → Type ℓ
HasDistinctKeys [] = Unit
HasDistinctKeys ((k, v) ∷ m) = (lookup k m ≡ none) × HasDistinctKeys m

pub insert-HasDistinctKeys {ℓ} :
    {V : Type ℓ} (k : Text) (v : V) (m : Assoc V)
    → HasDistinctKeys m
    → HasDistinctKeys (insert k v m)
unfolding insert lookup
insert-HasDistinctKeys k v [] h = (refl, tt)
insert-HasDistinctKeys k v ((j, w) ∷ m) h = elim (Bool-cases (text_eq j k)) [
  | inl same ↦ rw same (cc (h.0, (text_eq_iff j k).0 same), h.1)
  | inr other ↦ rw other (
    rw (lookup-insert k j v m) (ground (arith, h.0, text_eq_iff k j, text_eq_iff j k)),
    insert-HasDistinctKeys k v m h.1,
  )
]
