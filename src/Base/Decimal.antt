-- ===== src/Base/Decimal.antt =====
-- Decimal text of the natural numbers (`%d`, strconv.FormatInt) and back (strconv.Atoi).
use Prim.Native.Nat.{ℕ, zero, suc, ◌+◌, ◌-◌, ◌*◌, ◌/◌, ◌%◌, ◌^◌, ◌<◌, ◌≤◌}
use mathlib.Core.Path.{◌≡◌, refl, ap, sym, ◌∙◌}
use mathlib.Core.Bool.{Bool, ◌&&◌}
use mathlib.Core.Option.{Option, none, some}
use mathlib.Core.List.{[], ◌∷◌}
use mathlib.Core.Logic.{inl, inr}
use native.Mathlib.Omega.{arith}
use table_theory.Base.Tests.{ltb, leb, if◌then◌else◌, Bool-cases}
use table_theory.Base.Lists.{all}
use table_theory.Base.Strings.{Text, codes}

-- The digits of `n` before `out`, the last digit first. Fuel above `n` is enough.
emit : ℕ → ℕ → Text → Text
emit zero n out = out
emit (suc fuel) n out =
    let rest = emit fuel (n / 10) ((b'0' + n % 10) ∷ out) in
    if ltb n 10 then (b'0' + n) ∷ out else rest

unfoldable pub format : ℕ → Text
unfolding emit
format n = emit (suc n) n []

-- The number that digits stand for, after those that gave `n`.
unfoldable pub scan : ℕ → Text → ℕ
scan n [] = n
scan n (c ∷ s) = scan (n * 10 + (c - b'0')) s

abbrev pub is_digit : ℕ → Bool
is_digit c = leb b'0' c && leb c b'9'

-- strconv.Atoi on a text of digits: `none` where it is empty or does not fit an int64
unfoldable pub atoi : Text → Option ℕ
unfolding scan
atoi [] = none
atoi (c ∷ s) =
    let n = scan 0 (c ∷ s) in
    if all is_digit (c ∷ s) then (if ltb n (2 ^ 63) then some n else none) else none

scan-emit : (fuel n : ℕ) (out : Text) → n < fuel → scan 0 (emit fuel n out) ≡ scan n out
unfolding emit scan
scan-emit zero n out h = absurd (omega arith)
scan-emit (suc fuel) n out h = elim (Bool-cases (ltb n 10)) [
  | inl small ↦ rw small (ap (λ v. scan v out) (omega arith))
  | inr large ↦ rw large (
      scan-emit fuel (n / 10) ((b'0' + n % 10) ∷ out) (ground arith)
      ∙ ap (λ v. scan v out) (omega arith))
]

-- Reading back what was printed gives the number.
pub scan-format : (n : ℕ) → scan 0 (format n) ≡ n
unfolding format scan
scan-format n = scan-emit (suc n) n [] (omega arith)

pub format-injective : {m n : ℕ} → format m ≡ format n → m ≡ n
format-injective {m} {n} e = sym (scan-format m) ∙ ap (scan 0) e ∙ scan-format n

emit-first :
    (fuel n : ℕ) (out : Text)
    → n < fuel
    → (c : ℕ) × (s : Text) × (emit fuel n out ≡ c ∷ s) × (b'0' ≤ c)
unfolding emit
emit-first zero n out h = absurd (omega arith)
emit-first (suc fuel) n out h = elim (Bool-cases (ltb n 10)) [
  | inl small ↦ rw small (b'0' + n, out, refl, omega arith)
  | inr large ↦ rw large (emit-first fuel (n / 10) ((b'0' + n % 10) ∷ out) (ground arith))
]

-- The text of a number starts with a digit, so with no sign.
pub format-first : (n : ℕ) → (c : ℕ) × (s : Text) × (format n ≡ c ∷ s) × (b'0' ≤ c)
unfolding format
format-first n = emit-first (suc n) n [] (omega arith)

format_test : format 4711 ≡ codes "4711"
unfolding format
format_test = refl

atoi_test : atoi (codes "0042") ≡ some 42
unfolding atoi
atoi_test = refl
