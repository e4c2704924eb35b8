-- ===== src/Batch/Get/Complete.antt =====
-- pkg/query/batch_get.go: no item of a response is lost when each key has one of its own.
use table_theory.Base.{
  ℕ, zero, suc, ◌+◌, ◌<◌, true, false, Bool-cases, inl, inr, Option, none, some, List, [], ◌∷◌, map,
  Assoc, ◌≡◌, refl, length, length-set, get_elem?, set, All, All-map, AnyOf, arith, subst, sym,
}
use table_theory.Expr.{AttributeValue}
use table_theory.Batch.Keys.{BatchKeySpec}
use table_theory.Batch.Align.{
  Item, Slot, Places, key_matches_item, find_matching_item, put, align_chunk_results,
}

abbrev pub Attrs : Type 0
Attrs = Assoc AttributeValue

-- The key matches an item that is not used.
abbrev HasUnused : List Slot → Attrs → Type 0
HasUnused slots key = AnyOf (λ slot. (slot.1 ≡ false) × (key_matches_item key slot.0 ≡ true)) slots

-- No item matches both keys.
abbrev pub AreApart : Attrs → Attrs → Type 0
AreApart j k = (item : Item) → key_matches_item j item ≡ true → key_matches_item k item ≡ true → ⊥

abbrev pub AreDistinct : List BatchKeySpec → Type 0
AreDistinct [] = Unit
AreDistinct (key ∷ keys) = All (λ k. AreApart key.attrs k.attrs) keys × AreDistinct keys

-- What a search finds leaves the items of the other keys.
abbrev Finds : Attrs → List Slot → Type 0
Finds key slots =
    (item : Item) × (used : List Slot) × (find_matching_item key slots ≡ some (item, used))
    × ((k : Attrs) → AreApart key k → HasUnused slots k → HasUnused used k)

find_matching_item-Finds : (key : Attrs) (slots : List Slot) → HasUnused slots key → Finds key slots
unfolding find_matching_item
find_matching_item-Finds key [] h = elim h [ ]
find_matching_item-Finds key ((other, true) ∷ slots) (inl (e, m)) = cc
find_matching_item-Finds key ((other, true) ∷ slots) (inr h) =
    let (item, used, e, keeps) = find_matching_item-Finds key slots h in
    (
      item,
      (other, true) ∷ used,
      rw e refl,
      λ k apart has. elim has [ inl (e, m) ↦ cc | inr there ↦ inr (keeps k apart there) ],
    )
find_matching_item-Finds key ((other, false) ∷ slots) h =
    elim (Bool-cases (key_matches_item key other)) [
      | inl m ↦ (
        other,
        (other, true) ∷ slots,
        rw m refl,
        λ k apart has. elim has [
          | inl (e, m') ↦ elim (apart other m m') [ ]
          | inr there ↦ inr there
        ],
      )
      | inr m ↦
          passed m
            (elim h [ inl (e, m') ↦ cc | inr there ↦ find_matching_item-Finds key slots there ])
    ]
  where
    passed :
        key_matches_item key other ≡ false → Finds key slots → Finds key ((other, false) ∷ slots)
    passed m (item, used, e, keeps) = (
      item,
      (other, false) ∷ used,
      rw (m, e) refl,
      λ k apart has. elim has [ inl here ↦ inl here | inr there ↦ inr (keeps k apart there) ],
    )

-- An item stands in the place.
abbrev pub IsFilled : Places → ℕ → Type 0
IsFilled places i = (item : Item) × (get_elem? places i ≡ some (some item))

set-IsFilled :
    (places : Places) (i : ℕ) (item : Item)
    → i < length places
    → IsFilled (set places i (some item)) i
set-IsFilled [] i item h = elim (impossible h) [ ]
  where
    impossible : i < 0 → ⊥
    impossible h = omega arith
set-IsFilled (p ∷ places) zero item h = (item, refl)
set-IsFilled (p ∷ places) (suc i) item h = set-IsFilled places i item (omega arith)

set-keeps-IsFilled :
    (places : Places) (i j : ℕ) (item : Item)
    → IsFilled places j
    → IsFilled (set places i (some item)) j
set-keeps-IsFilled [] i j item h = h
set-keeps-IsFilled (p ∷ places) zero zero item h = (item, refl)
set-keeps-IsFilled (p ∷ places) zero (suc j) item h = h
set-keeps-IsFilled (p ∷ places) (suc i) zero item h = h
set-keeps-IsFilled (p ∷ places) (suc i) (suc j) item h = set-keeps-IsFilled places i j item h

put-keeps-IsFilled :
    (i j : ℕ) (o : Option (Item × List Slot)) (slots : List Slot) (places : Places)
    → IsFilled places j
    → IsFilled (put i o slots places).1 j
put-keeps-IsFilled i j none slots places h = h
put-keeps-IsFilled i j (some (item, used)) slots places h = set-keeps-IsFilled places i j item h

align-keeps-IsFilled :
    (keys : List BatchKeySpec) (slots : List Slot) (places : Places) (j : ℕ)
    → IsFilled places j
    → IsFilled (align_chunk_results keys slots places).0 j
unfolding align_chunk_results
align-keeps-IsFilled [] slots places j h = h
align-keeps-IsFilled (key ∷ keys) slots places j h =
    let next = put key.index (find_matching_item key.attrs slots) slots places in
    align-keeps-IsFilled keys next.0 next.1 j
      (put-keeps-IsFilled key.index j (find_matching_item key.attrs slots) slots places h)

-- Every key has its place filled, and is counted.
abbrev pub FindsAll : List BatchKeySpec → Places × ℕ → Type 0
FindsAll keys (places, matched) =
    All (λ key. IsFilled places key.index) keys × (matched ≡ length keys)

others-HaveUnused :
    (key : BatchKeySpec) (slots used : List Slot) (keys : List BatchKeySpec)
    → ((k : Attrs) → AreApart key.attrs k → HasUnused slots k → HasUnused used k)
    → All (λ k. AreApart key.attrs k.attrs) keys
    → All (λ k. HasUnused slots k.attrs) keys
    → All (λ k. HasUnused used k.attrs) keys
others-HaveUnused key slots used [] keeps apart h = tt
others-HaveUnused key slots used (k ∷ keys) keeps apart h =
    (keeps k.attrs apart.0 h.0, others-HaveUnused key slots used keys keeps apart.1 h.1)

align-found :
    (key : BatchKeySpec) (keys : List BatchKeySpec) (slots : List Slot) (places : Places)
    (item : Item) (used : List Slot)
    → find_matching_item key.attrs slots ≡ some (item, used)
    → let out = align_chunk_results keys used (set places key.index (some item)) in
      align_chunk_results (key ∷ keys) slots places ≡ (out.0, 1 + out.1)
unfolding align_chunk_results
align-found key keys slots places item used e = rw e refl

align-FindsAll :
    (keys : List BatchKeySpec) (slots : List Slot) (places : Places)
    → AreDistinct keys
    → All (λ k. HasUnused slots k.attrs) keys
    → All (λ k. k.index < length places) keys
    → FindsAll keys (align_chunk_results keys slots places)
unfolding align_chunk_results
align-FindsAll [] slots places d h inside = (tt, refl)
align-FindsAll (key ∷ keys) slots places d h inside =
    let (item, used, e, keeps) = find_matching_item-Finds key.attrs slots h.0 in
    let next = set places key.index (some item) in
    let (filled, counted) =
      align-FindsAll keys used next d.1 (others-HaveUnused key slots used keys keeps d.0 h.1) (
        All-map _ _ keys
          (λ k. subst (λ n. k.index < n) (sym (length-set places key.index (some item))))
          inside.1) in
    subst (FindsAll (key ∷ keys)) (sym (align-found key keys slots places item used e)) (
      (
        align-keeps-IsFilled keys used next key.index (set-IsFilled places key.index item inside.0),
        filled,
      ),
      omega (arith, counted),
    )

unused-HasUnused :
    (items : List Item) (key : Attrs)
    → AnyOf (λ item. key_matches_item key item ≡ true) items
    → HasUnused (map (λ item. (item, false)) items) key
unused-HasUnused [] key h = h
unused-HasUnused (item ∷ items) key (inl m) = inl (refl, m)
unused-HasUnused (item ∷ items) key (inr h) = inr (unused-HasUnused items key h)

-- When no item can match two of the keys of a chunk, and each key matches some item of the response,
-- in whatever order the response has them, every key gets an item in its place and the number of the
-- items that matched is the number of the keys. The places of the keys are within bounds.
pub align_chunk_results-FindsAll :
    (keys : List BatchKeySpec) (items : List Item) (places : Places)
    → AreDistinct keys
    → All (λ k. AnyOf (λ item. key_matches_item k.attrs item ≡ true) items) keys
    → All (λ k. k.index < length places) keys
    → FindsAll keys (align_chunk_results keys (map (λ item. (item, false)) items) places)
align_chunk_results-FindsAll keys items places d h inside =
    align-FindsAll keys (map (λ item. (item, false)) items) places d
      (All-map _ _ keys (λ k. unused-HasUnused items k.attrs) h) inside
