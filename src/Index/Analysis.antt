-- ===== src/Index/Analysis.antt =====
-- The keys that AnalyzeConditions (pkg/index/selector.go) finds, by a description of their own.
use table_theory.Base.{
  Option-cases, subst, arith, true, false, Option, none, some, List, [], ◌∷◌, ◌++◌, Text, text_eq,
  text_eq_refl, if◌then◌else◌, ◌≡◌, refl, sym, ap, ◌∙◌, inl, inr, All, Bool-cases,
}
use mathlib.Core.List.{append-nil, append_assoc}
use table_theory.Index.{
  RequiredKeys, Condition, normalize_operator, is_equality, sorted_by, partitioned_by,
  scan_conditions, scan_pending, finish, analyze_conditions,
}

-- The first condition on another field than the given one.
unfoldable pub first_other : Text → List Condition → Option Condition
unfolding text_eq
first_other p [] = none
first_other p (c ∷ cs) = let rest = first_other p cs in if text_eq c.field p then rest else some c

-- The keys of a partition field and of the condition, if any, that gives the sort key.
abbrev pub keys : Text → Option Condition → RequiredKeys
keys p none = record { partition_key = p; sort_key = []; sort_key_op = [] }
keys p (some c) = record {
  partition_key = p;
  sort_key = c.field;
  sort_key_op = normalize_operator c.operator;
}

-- Conditions on fields with a name.
abbrev pub HasField : Condition → Type 0
HasField c = text_eq c.field [] ≡ false

-- A condition that is no equality.
abbrev pub IsOther : Condition → Type 0
IsOther c = is_equality c.operator ≡ false

-- A known partition key stays.
partitioned_by-known :
    (required : RequiredKeys) (c : Condition)
    → text_eq required.partition_key [] ≡ false
    → partitioned_by required c ≡ required
partitioned_by-known required c h = elim (Bool-cases (is_equality c.operator)) [
  | inl yes_eq ↦ rw (yes_eq, h) refl
  | inr other ↦ rw other refl
]

scan_conditions-before :
    (before rest pending : List Condition)
    → All IsOther before
    → scan_conditions (before ++ rest) (keys [] none) pending
      ≡ scan_conditions rest (keys [] none) (pending ++ before)
unfolding scan_conditions text_eq
scan_conditions-before [] rest pending h =
    ap (scan_conditions rest (keys [] none)) (sym (append-nil pending))
scan_conditions-before (c ∷ before) rest pending h = rw h.0 (
    scan_conditions-before before rest (pending ++ c ∷ []) h.1
    ∙ ap (scan_conditions rest (keys [] none)) (append_assoc pending (c ∷ []) before))

scan_conditions-equality :
    (c : Condition) (rest pending : List Condition)
    → is_equality c.operator ≡ true
    → HasField c
    → scan_conditions (c ∷ rest) (keys [] none) pending
      ≡ scan_conditions rest (keys c.field none) pending
unfolding scan_conditions text_eq
scan_conditions-equality c rest pending h field = rw (h, field, text_eq_refl c.field) refl

-- Once both keys are known the loop changes nothing.
scan_conditions-done :
    (cs pending : List Condition) (p : Text) (s : Condition)
    → text_eq p [] ≡ false
    → HasField s
    → scan_conditions cs (keys p (some s)) pending ≡ (keys p (some s), pending)
unfolding scan_conditions
scan_conditions-done [] pending p s hp hs = refl
scan_conditions-done (c ∷ cs) pending p s hp hs =
    rw (partitioned_by-known (keys p (some s)) c hp, hp, hs)
      (scan_conditions-done cs pending p s hp hs)

scan_conditions-after :
    (cs pending : List Condition) (p : Text)
    → text_eq p [] ≡ false
    → All HasField cs
    → scan_conditions cs (keys p none) pending ≡ (keys p (first_other p cs), pending)
unfolding scan_conditions first_other sorted_by text_eq
scan_conditions-after [] pending p hp h = refl
scan_conditions-after (c ∷ cs) pending p hp h = elim (Bool-cases (text_eq c.field p)) [
  | inl same ↦
      rw (partitioned_by-known (keys p none) c hp, hp, same)
        (scan_conditions-after cs pending p hp h.1)
  | inr other ↦
      rw (partitioned_by-known (keys p none) c hp, hp, other)
        (scan_conditions-done cs pending p c hp h.0)
]

scan_pending-eq :
    (cs : List Condition) (p : Text) → scan_pending cs (keys p none) ≡ keys p (first_other p cs)
unfolding scan_pending first_other sorted_by
scan_pending-eq [] p = refl
scan_pending-eq (c ∷ cs) p = elim (Bool-cases (text_eq c.field p)) [
  | inl same ↦ rw same (scan_pending-eq cs p)
  | inr other ↦ rw other refl
]

first_other-append_none :
    (p : Text) (cs ds : List Condition)
    → first_other p cs ≡ none
    → first_other p (cs ++ ds) ≡ first_other p ds
unfolding first_other
first_other-append_none p [] ds h = refl
first_other-append_none p (c ∷ cs) ds h = ground (arith, h, first_other-append_none p cs ds)

first_other-append_some :
    (p : Text) (cs ds : List Condition) (c : Condition)
    → first_other p cs ≡ some c
    → first_other p (cs ++ ds) ≡ some c
unfolding first_other
first_other-append_some p [] ds c h = absurd cc
first_other-append_some p (d ∷ cs) ds c h = ground (arith, h, first_other-append_some p cs ds c)

first_other-HasField :
    (p : Text) (cs : List Condition) (c : Condition)
    → All HasField cs
    → first_other p cs ≡ some c
    → HasField c
unfolding first_other
first_other-HasField p [] c h e = absurd cc
first_other-HasField p (d ∷ cs) c h e = elim (Bool-cases (text_eq d.field p)) [
  | inl same ↦ first_other-HasField p cs c h.1 (rw same at e)
  | inr other ↦ let same : d ≡ c = cc (rw other at e) in subst HasField same h.0
]

finish-some :
    (p : Text) (c : Condition) (before : List Condition)
    → HasField c
    → finish (keys p (some c), before) ≡ keys p (some c)
finish-some p c before h = rw h refl

finish-none :
    (p : Text) (before : List Condition)
    → text_eq p [] ≡ false
    → finish (keys p none, before) ≡ keys p (first_other p before)
unfolding text_eq
finish-none p before h = rw h (scan_pending-eq before p)

-- The conditions after the one for the partition key come first, then those before it.
finish-first_other :
    (p : Text) (before after : List Condition)
    → text_eq p [] ≡ false
    → All HasField after
    → finish (keys p (first_other p after), before) ≡ keys p (first_other p (after ++ before))
finish-first_other p before after h fields = elim (Option-cases (first_other p after)) [
  | inl missing ↦
      rw (missing, first_other-append_none p after before missing) (finish-none p before h)
  | inr (c, found) ↦
      rw (found, first_other-append_some p after before c found)
        (finish-some p c before (first_other-HasField p after c fields found))
]

-- Where every condition has a field, the partition key is the field of the first equality, and the
-- sort key is that of the first condition on another field, where the conditions after the equality
-- come before those that stand ahead of it; its operator is normalized. Without such a condition the
-- sort key is empty.
pub analyze_conditions-equality :
    (before after : List Condition) (c : Condition)
    → All IsOther before
    → is_equality c.operator ≡ true
    → HasField c
    → All HasField after
    → analyze_conditions (before ++ c ∷ after)
      ≡ keys c.field (first_other c.field (after ++ before))
unfolding analyze_conditions
analyze_conditions-equality before after c others equality field fields =
    ap finish (
      scan_conditions-before before (c ∷ after) [] others
      ∙ scan_conditions-equality c after before equality field
      ∙ scan_conditions-after after before c.field field fields)
    ∙ finish-first_other c.field before after field fields

-- Without an equality no key is found.
analyze_conditions-other :
    (cs : List Condition) → All IsOther cs → analyze_conditions cs ≡ keys [] none
unfolding analyze_conditions scan_conditions text_eq
analyze_conditions-other cs others = ap finish (
    ap (λ all. scan_conditions all (keys [] none) []) (sym (append-nil cs))
    ∙ scan_conditions-before cs [] [] others)
