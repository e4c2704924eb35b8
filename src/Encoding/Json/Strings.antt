-- ===== src/Encoding/Json/Strings.antt =====
-- Strings of encoding/json: what was quoted reads back.
use mathlib.Core.List.{append_assoc}
use table_theory.Base.{
  ℕ, zero, suc, ◌/◌, ◌%◌, ◌<◌, ◌≤◌, ◌≡◌, refl, true, false, none, some, [], ◌∷◌, ◌++◌, Text, length,
  drop, length-append, arith, inl, inr, Bool-cases, Option-cases,
}
use table_theory.Encoding.Json.{
  hex_digit, unicode_escape, short_escape, is_escaped, escape_char, escape_text, quote, hex_value,
  hex4, code_unit, unescape, onto, string_body, read_string,
}

hex_value-hex_digit : (d : ℕ) → d < 16 → hex_value (hex_digit d) ≡ some d
unfolding hex_value
hex_value-hex_digit d h = ground arith

hex4-hex_digits :
    (c : ℕ) (t : Text)
    → c < 65536
    → hex4 (
        hex_digit (c / 4096)
        ∷ hex_digit (c / 256 % 16)
        ∷ hex_digit (c / 16 % 16)
        ∷ hex_digit (c % 16)
        ∷ t)
      ≡ some (c, t)
unfolding hex4
hex4-hex_digits c t h =
    rw
      (
        hex_value-hex_digit (c / 4096) (omega arith),
        hex_value-hex_digit (c / 256 % 16) (omega arith),
        hex_value-hex_digit (c / 16 % 16) (omega arith),
        hex_value-hex_digit (c % 16) (omega arith),
      )
      (ground arith)

unescape-short_escape :
    (c e : ℕ) (t : Text) → short_escape c ≡ some e → unescape (e ∷ t) ≡ some (c, t)
unfolding unescape
unescape-short_escape c e t h = ground arith

code_unit-is_escaped : (c : ℕ) (t : Text) → is_escaped c ≡ true → code_unit (c, t) ≡ (c, t)
code_unit-is_escaped c t h = ground arith

is_escaped-lt : (c : ℕ) → is_escaped c ≡ true → c < 65536
is_escaped-lt c h = ground arith

unescape-unicode_escape :
    (c : ℕ) (t : Text)
    → is_escaped c ≡ true
    → unescape (drop 1 (unicode_escape c ++ t)) ≡ some (c, t)
unfolding unescape
unescape-unicode_escape c t h =
    rw (hex4-hex_digits c t (is_escaped-lt c h), code_unit-is_escaped c t h) refl

plain_char :
    (c fuel : ℕ) (t : Text)
    → short_escape c ≡ none
    → is_escaped c ≡ false
    → string_body (suc fuel) (c ∷ t) ≡ onto c (string_body fuel t)
unfolding string_body
plain_char c fuel t h k = ground arith

-- One character of the text takes one round.
string_body-escape_char :
    (c fuel : ℕ) (t : Text)
    → string_body (suc fuel) (escape_char c ++ t) ≡ onto c (string_body fuel t)
unfolding string_body escape_char
string_body-escape_char c fuel t = elim (Option-cases (short_escape c)) [
  | inr (e, short) ↦ rw (short, unescape-short_escape c e t short) refl
  | inl none_short ↦ elim (Bool-cases (is_escaped c)) [
    | inl long ↦ rw (none_short, long, unescape-unicode_escape c t long) refl
    | inr plain ↦ rw (none_short, plain) (plain_char c fuel t none_short plain)
  ]
]

length-escape_char : (c : ℕ) → 1 ≤ length (escape_char c)
unfolding escape_char
length-escape_char c = ground arith

length-escape_text : (s : Text) → length s ≤ length (escape_text s)
unfolding escape_text
length-escape_text [] = omega arith
length-escape_text (c ∷ s) = omega (
  arith,
  length-escape_char c,
  length-escape_text s,
  length-append {0} (escape_char c) (escape_text s),
)

string_body-escape_text :
    (s t : Text) (fuel : ℕ)
    → length s < fuel
    → string_body fuel (escape_text s ++ b'"' ∷ t) ≡ some (s, t)
unfolding string_body escape_text
string_body-escape_text s t zero enough = absurd (omega arith)
string_body-escape_text [] t (suc fuel) enough = refl
string_body-escape_text (c ∷ s) t (suc fuel) enough =
    rw
      (
        append_assoc (escape_char c) (escape_text s) (b'"' ∷ t),
        string_body-escape_char c fuel (escape_text s ++ b'"' ∷ t),
        string_body-escape_text s t fuel (omega arith),
      )
      refl

pub read_string-quote : (s t : Text) → read_string (quote s ++ t) ≡ some (s, t)
unfolding read_string quote
read_string-quote s t = rw (append_assoc (escape_text s) (b'"' ∷ []) t) (
    string_body-escape_text s t (suc (length (escape_text s ++ b'"' ∷ t)))
      (omega (arith, length-escape_text s, length-append {0} (escape_text s) (b'"' ∷ t))))
