-- ===== src/Index/Equality.antt =====
-- Where the partition key of AnalyzeConditions (pkg/index/selector.go) comes from.
use table_theory.Base.{
  List, [], ◌∷◌, ◌++◌, Text, text_eq, ◌≡◌, ◌≢◌, refl, sym, ◌∙◌, ◌⊎◌, inl, inr, true, not, ◌&&◌,
  Bool-cases, AnyOf,
}
use table_theory.Index.{
  RequiredKeys, Condition, is_equality, sorted_by, partitioned_by, scan_conditions, scan_pending,
  finish, analyze_conditions,
}

-- An equality on the field.
abbrev pub IsEqualityOn : Text → Condition → Type 0
IsEqualityOn p c = (is_equality c.operator ≡ true) × (c.field ≡ p)

partitioned_by-key :
    (required : RequiredKeys) (c : Condition)
    → ((partitioned_by required c).partition_key ≡ required.partition_key)
      ⊎ IsEqualityOn (partitioned_by required c).partition_key c
partitioned_by-key required c = elim (Bool-cases (is_equality c.operator)) [
  | inr other ↦ rw other (inl refl)
  | inl equality ↦ elim (Bool-cases (text_eq required.partition_key [])) [
    | inl free ↦ rw (equality, free) (inr (refl, refl))
    | inr known ↦ rw (equality, known) (inl refl)
  ]
]

-- The key that a loop over the rest ends with.
key_step :
    (p : Text) (required : RequiredKeys) (c : Condition) (cs : List Condition)
    → (p ≡ (partitioned_by required c).partition_key) ⊎ AnyOf (IsEqualityOn p) cs
    → (p ≡ required.partition_key) ⊎ AnyOf (IsEqualityOn p) (c ∷ cs)
key_step p required c cs (inr later) = inr (inr later)
key_step p required c cs (inl e) = elim (partitioned_by-key required c) [
  | inl same ↦ inl (e ∙ same)
  | inr equality ↦ inr (inl (equality.0, equality.1 ∙ sym e))
]

scan_conditions-key :
    (cs : List Condition) (required : RequiredKeys) (pending : List Condition) (p : Text)
    → (scan_conditions cs required pending).0.partition_key ≡ p
    → (p ≡ required.partition_key) ⊎ AnyOf (IsEqualityOn p) cs
unfolding scan_conditions sorted_by
scan_conditions-key [] required pending p e = inl (sym e)
scan_conditions-key (c ∷ cs) required pending p e =
    let required' = partitioned_by required c in
    key_step p required c cs (elim (Bool-cases (text_eq required'.partition_key [])) [
      | inl free ↦ scan_conditions-key cs required' (pending ++ c ∷ []) p (rw free at e)
      | inr known ↦
          elim (Bool-cases
            (text_eq required'.sort_key [] && not (text_eq c.field required'.partition_key))) [
              | inl sorting ↦
                  scan_conditions-key cs (sorted_by required' c) pending p
                    (rw (known, sorting) at e)
              | inr passing ↦ scan_conditions-key cs required' pending p (rw (known, passing) at e)
            ]
    ])

scan_pending-key :
    (cs : List Condition) (required : RequiredKeys)
    → (scan_pending cs required).partition_key ≡ required.partition_key
unfolding scan_pending sorted_by
scan_pending-key [] required = refl
scan_pending-key (c ∷ cs) required = elim (Bool-cases (text_eq c.field required.partition_key)) [
  | inl same ↦ rw same (scan_pending-key cs required)
  | inr other ↦ rw other refl
]

finish-key :
    (required : RequiredKeys) (pending : List Condition)
    → (finish (required, pending)).partition_key ≡ required.partition_key
finish-key required pending =
    elim (Bool-cases (text_eq required.sort_key [] && not (text_eq required.partition_key []))) [
      | inl open_key ↦ rw open_key (scan_pending-key pending required)
      | inr settled ↦ rw settled refl
    ]

-- A partition key that is found is the field of an equality among the conditions.
pub analyze_conditions-key :
    (cs : List Condition)
    → (analyze_conditions cs).partition_key ≢ []
    → AnyOf (IsEqualityOn (analyze_conditions cs).partition_key) cs
unfolding analyze_conditions
analyze_conditions-key cs h =
    let start : RequiredKeys = record { partition_key = []; sort_key = []; sort_key_op = [] } in
    let found = scan_conditions cs start [] in
    let same = finish-key found.0 found.1 in
    elim (scan_conditions-key cs start [] found.0.partition_key refl) [
      | inl empty ↦ absurd (h (same ∙ empty))
      | inr c ↦ rw same c
    ]
