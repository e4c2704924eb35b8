-- ===== src/Encoding/Utf8.antt =====
-- The UTF-8 bytes of a text of code points, and back as `range` over a Go string and encoding/json
-- read them: a byte that starts no well-formed sequence is U+FFFD.
use table_theory.Base.{
  ℕ, zero, suc, ◌+◌, ◌-◌, ◌*◌, ◌/◌, ◌%◌, ◌<◌, ◌≤◌, Bool, true, ◌&&◌, ◌||◌, ltb, leb, if◌then◌else◌,
  List, [], ◌∷◌, ◌++◌, Text, All, length, drop, ◌≡◌, refl, arith, inl, inr, Bool-cases,
  length-append, All-append, ap,
}
use table_theory.Encoding.Base64.{IsByte, IsAscii}

-- utf8.AppendRune on a scalar value
encode_rune : ℕ → List ℕ
encode_rune c =
    if ltb c 0x80
    then c ∷ []
    else if ltb c 0x800
    then (0xc0 + c / 64) ∷ (0x80 + c % 64) ∷ []
    else if ltb c 0x10000
    then (0xe0 + c / 4096) ∷ (0x80 + c / 64 % 64) ∷ (0x80 + c % 64) ∷ []
    else (0xf0 + c / 262144) ∷ (0x80 + c / 4096 % 64) ∷ (0x80 + c / 64 % 64) ∷ (0x80 + c % 64) ∷ []

unfoldable pub encode : Text → List ℕ
unfolding encode_rune
encode [] = []
encode (c ∷ s) = encode_rune c ++ encode s

abbrev is_tail : ℕ → Bool
is_tail b = leb 0x80 b && ltb b 0xc0

abbrev bad : ℕ × ℕ
bad = (0xfffd, 1)

abbrev is_scalar : ℕ → Bool
is_scalar c = ltb c 0xd800 || (leb 0xe000 c && ltb c 0x110000)

-- A value in the range of its length, with that length.
abbrev checked : ℕ → ℕ → ℕ → ℕ × ℕ
checked least width c = if leb least c && is_scalar c then (c, width) else bad

rune_two : ℕ → List ℕ → ℕ × ℕ
rune_two a (b ∷ _) = if is_tail b then checked 0x80 2 ((a - 0xc0) * 64 + (b - 0x80)) else bad
rune_two a [] = bad

rune_three : ℕ → List ℕ → ℕ × ℕ
rune_three a (b ∷ c ∷ _) =
    if is_tail b && is_tail c
    then checked 0x800 3 ((a - 0xe0) * 4096 + (b - 0x80) * 64 + (c - 0x80))
    else bad
rune_three a (b ∷ []) = bad
rune_three a [] = bad

rune_four : ℕ → List ℕ → ℕ × ℕ
rune_four a (b ∷ c ∷ d ∷ _) =
    if is_tail b && (is_tail c && is_tail d)
    then checked 0x10000 4 ((a - 0xf0) * 262144 + (b - 0x80) * 4096 + (c - 0x80) * 64 + (d - 0x80))
    else bad
rune_four a (b ∷ c ∷ []) = bad
rune_four a (b ∷ []) = bad
rune_four a [] = bad

-- utf8.DecodeRune on the byte `a` and what follows it
rune : ℕ → List ℕ → ℕ × ℕ
unfolding rune_two rune_three rune_four
rune a bs =
    if ltb a 0x80
    then (a, 1)
    else if ltb a 0xc0
    then bad
    else if ltb a 0xe0
    then rune_two a bs
    else if ltb a 0xf0
    then rune_three a bs
    else if ltb a 0xf8
    then rune_four a bs
    else bad

runes : ℕ → List ℕ → Text
unfolding rune
runes zero bs = []
runes (suc fuel) [] = []
runes (suc fuel) (a ∷ bs) = let (c, width) = rune a bs in c ∷ runes fuel (drop (width - 1) bs)

-- Each rune takes a byte at least, so the number of bytes is fuel enough.
unfoldable pub decode : List ℕ → Text
unfolding runes
decode bs = runes (length bs) bs

-- A scalar value of Unicode.
abbrev pub IsScalar : ℕ → Type 0
IsScalar c = is_scalar c ≡ true

rune-one : (c : ℕ) (bs : List ℕ) → c < 0x80 → rune c bs ≡ (c, 1)
unfolding rune
rune-one c bs h = ground arith

rune-two :
    (c : ℕ) (bs : List ℕ)
    → 0x80 ≤ c
    → c < 0x800
    → rune (0xc0 + c / 64) ((0x80 + c % 64) ∷ bs) ≡ (c, 2)
unfolding rune
rune-two c bs low high = ground arith

rune-three :
    (c : ℕ) (bs : List ℕ)
    → 0x800 ≤ c
    → c < 0x10000
    → IsScalar c
    → rune (0xe0 + c / 4096) ((0x80 + c / 64 % 64) ∷ (0x80 + c % 64) ∷ bs) ≡ (c, 3)
unfolding rune
rune-three c bs low high scalar = ground arith

rune-four :
    (c : ℕ) (bs : List ℕ)
    → 0x10000 ≤ c
    → IsScalar c
    → rune
        (0xf0 + c / 262144)
        ((0x80 + c / 4096 % 64) ∷ (0x80 + c / 64 % 64) ∷ (0x80 + c % 64) ∷ bs)
      ≡ (c, 4)
unfolding rune
rune-four c bs low scalar = ground arith

runes-encode_rune :
    (c fuel : ℕ) (bs : List ℕ)
    → IsScalar c
    → runes (suc fuel) (encode_rune c ++ bs) ≡ c ∷ runes fuel bs
unfolding runes encode_rune
runes-encode_rune c fuel bs h = elim (Bool-cases (ltb c 0x80)) [
  | inl one ↦ rw (one, rune-one c bs (ground arith)) refl
  | inr more ↦ elim (Bool-cases (ltb c 0x800)) [
    | inl two ↦ rw (more, two, rune-two c bs (ground arith) (ground arith)) refl
    | inr longer ↦ elim (Bool-cases (ltb c 0x10000)) [
      | inl three ↦ rw (more, longer, three, rune-three c bs (ground arith) (ground arith) h) refl
      | inr four ↦ rw (more, longer, four, rune-four c bs (ground arith) h) refl
    ]
  ]
]

length-encode_rune : (c : ℕ) → 1 ≤ length (encode_rune c)
unfolding encode_rune
length-encode_rune c = ground arith

runes-encode :
    (s : Text) (fuel : ℕ) → All IsScalar s → length (encode s) ≤ fuel → runes fuel (encode s) ≡ s
unfolding encode runes
runes-encode [] zero h enough = refl
runes-encode [] (suc fuel) h enough = refl
runes-encode (c ∷ s) zero h enough =
    absurd (omega (arith, length-encode_rune c, length-append {0} (encode_rune c) (encode s)))
runes-encode (c ∷ s) (suc fuel) h enough = rw (runes-encode_rune c fuel (encode s) h.0) (
    ap (λ t. c ∷ t)
      (runes-encode s fuel h.1
        (omega (arith, length-encode_rune c, length-append {0} (encode_rune c) (encode s)))))

-- The bytes of a text of scalar values decode to the text.
pub decode-encode : (s : Text) → All IsScalar s → decode (encode s) ≡ s
unfolding decode
decode-encode s h = runes-encode s (length (encode s)) h (omega arith)

encode_rune-IsByte : (c : ℕ) → IsScalar c → All IsByte (encode_rune c)
unfolding encode_rune
encode_rune-IsByte c h = ground arith

decode_test : decode (encode (b'a' ∷ 0x20ac ∷ 0x1f600 ∷ [])) ≡ b'a' ∷ 0x20ac ∷ 0x1f600 ∷ []
unfolding decode encode
decode_test = refl

pub encode-IsByte : (s : Text) → All IsScalar s → All IsByte (encode s)
unfolding encode
encode-IsByte [] h = tt
encode-IsByte (c ∷ s) h =
    All-append IsByte (encode_rune c) (encode s) (encode_rune-IsByte c h.0) (encode-IsByte s h.1)

pub IsAscii-IsScalar : (s : Text) → All IsAscii s → All IsScalar s
IsAscii-IsScalar [] h = tt
IsAscii-IsScalar (c ∷ s) h = (ground arith, IsAscii-IsScalar s h.1)
