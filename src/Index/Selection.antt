-- ===== src/Index/Selection.antt =====
-- The index that SelectOptimal (pkg/index/selector.go) chooses.
use table_theory.Base.{
  ℕ, ◌<◌, ◌≤◌, true, false, Option, none, some, List, [], ◌∷◌, ◌++◌, text_eq, text_eq_iff,
  text_eq-false, lt→ltb, subst, ltb, ◌≡◌, ◌≢◌, refl, sym, ap, ◌∙◌, ◌⊎◌, inl, inr, All, All-map,
  arith, Bool-cases,
}
use table_theory.Index.{IndexSchema, RequiredKeys, score_index, positive, best, select_optimal}

score_index-other :
    (idx : IndexSchema) (required : RequiredKeys)
    → text_eq idx.partition_key required.partition_key ≡ false
    → score_index idx required ≡ 0
unfolding score_index
score_index-other idx required h = rw h refl

score_index-same :
    (idx : IndexSchema) (required : RequiredKeys)
    → text_eq idx.partition_key required.partition_key ≡ true
    → 100 ≤ score_index idx required
unfolding score_index
score_index-same idx required h = rw h (omega arith)

-- The first of the indexes with the greatest score.
abbrev pub IsFirstBest : RequiredKeys → List IndexSchema → IndexSchema → Type 0
IsFirstBest required indexes idx =
    (before : List IndexSchema) × (after : List IndexSchema) × (indexes ≡ before ++ idx ∷ after)
    × All (λ other. score_index other required < score_index idx required) before
    × All (λ other. score_index other required ≤ score_index idx required) after

-- What the loop ends with: the index that it started with, or the first best one.
abbrev Improves : RequiredKeys → List IndexSchema → ℕ → Option IndexSchema × ℕ → Type 0
Improves required indexes s out =
    (idx : IndexSchema) × (out ≡ (some idx, score_index idx required))
    × (s < score_index idx required)
    × IsFirstBest required indexes idx

abbrev Ends : RequiredKeys → List IndexSchema → Option IndexSchema → ℕ → Type 0
Ends required indexes b s =
    ((best required indexes b s ≡ (b, s)) × All (λ other. score_index other required ≤ s) indexes)
    ⊎ Improves required indexes s (best required indexes b s)

IsFirstBest-cons :
    (required : RequiredKeys) {indexes : List IndexSchema} (idx next : IndexSchema)
    → score_index idx required < score_index next required
    → IsFirstBest required indexes next
    → IsFirstBest required (idx ∷ indexes) next
IsFirstBest-cons required idx next lower (before, after, parts, lowers, rest) =
    (idx ∷ before, after, ap (λ l. idx ∷ l) parts, (lower, lowers), rest)

-- The rest of the loop after an index that was the best so far, and after one that was not.
later_best :
    (required : RequiredKeys) {indexes : List IndexSchema} {s : ℕ} (idx : IndexSchema)
    → Ends required indexes (some idx) (score_index idx required)
    → s < score_index idx required
    → Improves required
        (idx ∷ indexes)
        s
        (best required indexes (some idx) (score_index idx required))
later_best required {indexes = indexes} idx (inl (e, lower)) more =
    (idx, e, more, ([], indexes, refl, tt, lower))
later_best required idx (inr (next, e, higher, first)) more =
    (next, e, omega arith, IsFirstBest-cons required idx next higher first)

keeps_best :
    (required : RequiredKeys) {indexes : List IndexSchema} {b : Option IndexSchema} {s : ℕ}
    (idx : IndexSchema)
    → Ends required indexes b s
    → score_index idx required ≤ s
    → ((best required indexes b s ≡ (b, s))
        × All (λ other. score_index other required ≤ s) (idx ∷ indexes))
      ⊎ Improves required (idx ∷ indexes) s (best required indexes b s)
keeps_best required idx (inl (e, lower)) less = inl (e, (less, lower))
keeps_best required idx (inr (next, e, higher, first)) less =
    inr (next, e, higher, IsFirstBest-cons required idx next (omega arith) first)

best-Ends :
    (required : RequiredKeys) (indexes : List IndexSchema) (b : Option IndexSchema) (s : ℕ)
    → Ends required indexes b s
unfolding best
best-Ends required [] b s = inl (refl, tt)
best-Ends required (idx ∷ indexes) b s = elim (Bool-cases (ltb s (score_index idx required))) [
  | inl better ↦ rw better (
      inr (
        later_best required idx (best-Ends required indexes (some idx) (score_index idx required))
          (ground arith)))
  | inr worse ↦ rw worse (keeps_best required idx (best-Ends required indexes b s) (ground arith))
]

select_optimal-empty :
    (indexes : List IndexSchema) (required : RequiredKeys)
    → text_eq required.partition_key [] ≡ true
    → select_optimal indexes required ≡ none
unfolding select_optimal
select_optimal-empty indexes required h = rw h refl

select_optimal-eq :
    (indexes : List IndexSchema) (required : RequiredKeys)
    → text_eq required.partition_key [] ≡ false
    → select_optimal indexes required ≡ positive (best required indexes none 0)
unfolding select_optimal
select_optimal-eq indexes required h = rw h refl

positive-some : (idx : IndexSchema) (score : ℕ) → 0 < score → positive (some idx, score) ≡ some idx
positive-some idx score h = rw (lt→ltb 0 score h) refl

-- An index with a score has the partition key.
positive-same :
    (idx : IndexSchema) (required : RequiredKeys)
    → 0 < score_index idx required
    → idx.partition_key ≡ required.partition_key
positive-same idx required h =
    elim (Bool-cases (text_eq idx.partition_key required.partition_key)) [
      | inl same ↦ (text_eq_iff idx.partition_key required.partition_key).0 same
      | inr other ↦ absurd (omega (arith, score_index-other idx required other))
    ]

zero-other :
    (idx : IndexSchema) (required : RequiredKeys)
    → score_index idx required ≤ 0
    → idx.partition_key ≢ required.partition_key
zero-other idx required h same = omega (
  arith,
  score_index-same idx required ((text_eq_iff idx.partition_key required.partition_key).1 same),
)

-- The index chosen is the first of the greatest score, and its partition key is the required one,
-- which is not empty.
pub select_optimal-IsFirstBest :
    (indexes : List IndexSchema) (required : RequiredKeys) (idx : IndexSchema)
    → select_optimal indexes required ≡ some idx
    → (required.partition_key ≢ [])
      × (idx.partition_key ≡ required.partition_key)
      × IsFirstBest required indexes idx
unfolding select_optimal
select_optimal-IsFirstBest indexes required idx h =
    elim (Bool-cases (text_eq required.partition_key [])) [
      | inl empty ↦ absurd (cc (sym (select_optimal-empty indexes required empty) ∙ h))
      | inr given ↦
          let chosen : positive (best required indexes none 0) ≡ some idx =
            sym (select_optimal-eq indexes required given) ∙ h in
          elim (best-Ends required indexes none 0) [
            | inl stays ↦ absurd (cc (sym (ap positive stays.0) ∙ chosen))
            | inr (next, e, more, first) ↦
                let same : next ≡ idx =
                  cc (sym (positive-some next _ more) ∙ sym (ap positive e) ∙ chosen) in
                subst
                  (λ i.
                    (required.partition_key ≢ [])
                    × (i.partition_key ≡ required.partition_key)
                    × IsFirstBest required indexes i)
                  same
                  (
                    (λ empty. cc (given, (text_eq_iff required.partition_key []).1 empty)),
                    positive-same next required more,
                    first,
                  )
          ]
    ]

-- No index is chosen for a query with a partition key only when no index has that partition key.
pub select_optimal-none :
    (indexes : List IndexSchema) (required : RequiredKeys)
    → required.partition_key ≢ []
    → select_optimal indexes required ≡ none
    → All (λ idx. idx.partition_key ≢ required.partition_key) indexes
select_optimal-none indexes required given h = elim (best-Ends required indexes none 0) [
  | inl stays ↦ All-map _ _ indexes (λ idx. zero-other idx required) stays.1
  | inr (next, e, more, first) ↦ absurd (
      cc (
        sym (positive-some next _ more)
        ∙ sym (ap positive e)
        ∙ sym (select_optimal-eq indexes required (text_eq-false required.partition_key [] given))
        ∙ h))
]
