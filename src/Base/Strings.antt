-- ===== src/Base/Strings.antt =====
-- Go strings as lists of code points, and the functions of the package `strings` in use. The
-- letter functions are those of ASCII text.
use Prim.Native.Nat.{ℕ, suc, ◌+◌, ◌-◌}
use Prim.Native.Char.{code}
use Prim.Native.String.{String}
use mathlib.Core.Path.{◌≡◌, refl}
use mathlib.Core.Logic.{◌↔◌, ◌≢◌, inl, inr}
use mathlib.Core.Bool.{Bool, true, false, ◌&&◌, ◌||◌}
use mathlib.Core.Option
use mathlib.Core.Option.{Option, none, some}
use mathlib.Core.List.{List, [], ◌∷◌, ◌++◌, map, reverse}
use native.Mathlib.Omega.{arith}
use table_theory.Base.Tests.{leb, ◌==◌, ==_iff, if◌then◌else◌, and-eq_true, Bool-cases}

abbrev pub Text : Type 0
Text = List ℕ

-- A literal's code points.
abbrev pub codes : String → Text
codes String.[] = []
codes (String.◌∷◌ c s) = code c ∷ codes s

abbrev pub IsNonEmpty : Text → Type 0
IsNonEmpty [] = ⊥
IsNonEmpty (c ∷ s) = Unit

unfoldable pub text_eq : Text → Text → Bool
text_eq [] [] = true
text_eq [] (d ∷ t) = false
text_eq (c ∷ s) [] = false
text_eq (c ∷ s) (d ∷ t) = c == d && text_eq s t

pub text_eq_refl : (s : Text) → text_eq s s ≡ true
unfolding text_eq
text_eq_refl [] = refl
text_eq_refl (c ∷ s) = ground (arith, text_eq_refl s)

text_eq_sound : (s t : Text) → text_eq s t ≡ true → s ≡ t
unfolding text_eq
text_eq_sound [] [] h = refl
text_eq_sound [] (d ∷ t) h = cc
text_eq_sound (c ∷ s) [] h = cc
text_eq_sound (c ∷ s) (d ∷ t) h =
    let (e, r) = and-eq_true (c == d) (text_eq s t) h in cc ((==_iff c d).0 e, text_eq_sound s t r)

pub text_eq_iff : (s t : Text) → (text_eq s t ≡ true) ↔ (s ≡ t)
text_eq_iff s t = (text_eq_sound s t, λ e. rw e (text_eq_refl t))

pub text_eq-false : (s t : Text) → s ≢ t → text_eq s t ≡ false
text_eq-false s t h = elim (Bool-cases (text_eq s t)) [
  | inl e ↦ absurd (h (text_eq_sound s t e))
  | inr e ↦ e
]

-- strings.HasPrefix, with the prefix first
unfoldable pub starts_with : Text → Text → Bool
starts_with [] s = true
starts_with (p ∷ ps) [] = false
starts_with (p ∷ ps) (c ∷ s) = p == c && starts_with ps s

-- strings.HasSuffix, with the suffix first
unfoldable pub ends_with : Text → Text → Bool
unfolding starts_with
ends_with suffix s = starts_with (reverse suffix) (reverse s)

-- strings.Contains
unfoldable pub contains : Text → Text → Bool
unfolding starts_with
contains [] sub = starts_with sub []
contains (c ∷ s) sub = starts_with sub (c ∷ s) || contains s sub

-- The first piece takes one more character in front.
abbrev onto_first : ℕ → List Text → List Text
onto_first c [] = (c ∷ []) ∷ []
onto_first c (piece ∷ rest) = (c ∷ piece) ∷ rest

-- strings.Split at a separator of one character
unfoldable pub split : ℕ → Text → List Text
split sep [] = [] ∷ []
split sep (c ∷ s) = let rest = split sep s in if c == sep then [] ∷ rest else onto_first c rest

-- strings.Join
unfoldable pub join : Text → List Text → Text
join sep [] = []
join sep (piece ∷ []) = piece
join sep (piece ∷ next ∷ rest) = piece ++ (sep ++ join sep (next ∷ rest))

unfoldable pub to_upper_char : ℕ → ℕ
to_upper_char c = if leb b'a' c && leb c b'z' then c - 32 else c

unfoldable pub to_lower_char : ℕ → ℕ
to_lower_char c = if leb b'A' c && leb c b'Z' then c + 32 else c

-- strings.ToUpper and strings.ToLower
unfoldable pub to_upper : Text → Text
unfolding to_upper_char
to_upper s = map to_upper_char s

unfoldable pub to_lower : Text → Text
unfolding to_lower_char
to_lower s = map to_lower_char s

-- strings.Index and strings.LastIndex of one character; `none` is -1
unfoldable pub index_of : ℕ → Text → Option ℕ
index_of x [] = none
index_of x (c ∷ s) = let rest = index_of x s in if c == x then some 0 else Option.map suc rest

abbrev later : Bool → Option ℕ → Option ℕ
later here (some i) = some (suc i)
later here none = if here then some 0 else none

unfoldable pub last_index_of : ℕ → Text → Option ℕ
last_index_of x [] = none
last_index_of x (c ∷ s) = later (c == x) (last_index_of x s)

abbrev is_space : ℕ → Bool
is_space c = c == 32 || (leb 9 c && leb c 13)

unfoldable pub trim_left : Text → Text
trim_left [] = []
trim_left (c ∷ s) = let rest = trim_left s in if is_space c then rest else c ∷ s

-- strings.TrimSpace
unfoldable pub trim_space : Text → Text
unfolding trim_left
trim_space s = reverse (trim_left (reverse (trim_left s)))
