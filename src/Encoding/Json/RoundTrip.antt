-- ===== src/Encoding/Json/RoundTrip.antt =====
-- What json.Marshal writes, json.Unmarshal reads.
use mathlib.Core.List.{append_assoc, append-nil}
use table_theory.Base.{
  ℕ, zero, suc, ◌+◌, ◌*◌, ◌<◌, ◌≤◌, ◌≡◌, refl, ap, Bool, true, false, some, [], ◌∷◌, ◌++◌, Text,
  length, length-append, All, arith, starts_with,
}
use table_theory.Encoding.Utf8.{IsScalar}
use table_theory.Encoding.Json.{
  Json, Items, Fields, null, bool, number, string, array, object, no_items, item, no_fields, field,
  quote, sep, print, print_items, print_fields, skip_space, expect, expect_sep, closes, parse_value,
  parse_items, parse_fields, read_as, value_at, Parser, parse,
}
use table_theory.Encoding.Json.Strings.{read_string-quote}

-- Every string is one of Unicode scalar values, and no number stands in the value: the text of one
-- is kept, and need not be that of a number.
unfoldable mutual
  pub IsValid : Json → Type 0
  IsValid null = Unit
  IsValid (bool b) = Unit
  IsValid (number digits) = ⊥
  IsValid (string s) = All IsScalar s
  IsValid (array xs) = ItemsAreValid xs
  IsValid (object fs) = FieldsAreValid fs

  pub ItemsAreValid : Items → Type 0
  ItemsAreValid no_items = Unit
  ItemsAreValid (item v xs) = IsValid v × ItemsAreValid xs

  pub FieldsAreValid : Fields → Type 0
  FieldsAreValid no_fields = Unit
  FieldsAreValid (field k v fs) = All IsScalar k × (IsValid v × FieldsAreValid fs)

expect_sep-sep : (first : Bool) (t : Text) → expect_sep first (sep first ++ t) ≡ some (tt, t)
unfolding expect_sep skip_space
expect_sep-sep true t = refl
expect_sep-sep false t = refl

-- A printed value never looks like the closing bracket.
closes-print :
    (first : Bool) (v : Json) (t : Text)
    → IsValid v
    → closes b']' (sep first ++ (print v ++ t)) ≡ false
unfolding print quote skip_space IsValid
closes-print false v t h = refl
closes-print true null t h = refl
closes-print true (bool true) t h = refl
closes-print true (bool false) t h = refl
closes-print true (number digits) t h = elim h [ ]
closes-print true (string s) t h = refl
closes-print true (array xs) t h = refl
closes-print true (object fs) t h = refl

closes-quote : (first : Bool) (k t : Text) → closes b'}' (sep first ++ (quote k ++ t)) ≡ false
unfolding quote skip_space
closes-quote false k t = refl
closes-quote true k t = refl

skip_space-quote : (k t : Text) → skip_space (quote k ++ t) ≡ quote k ++ t
unfolding quote skip_space
skip_space-quote k t = refl

expect-colon : (t : Text) → expect b':' (b':' ∷ t) ≡ some (tt, t)
unfolding expect skip_space
expect-colon t = refl

length-quote : (k : Text) → 1 ≤ length (quote k)
unfolding quote
length-quote k = omega arith

length-print : (v : Json) → IsValid v → 1 ≤ length (print v)
unfolding print quote IsValid
length-print null h = omega arith
length-print (bool true) h = omega arith
length-print (bool false) h = omega arith
length-print (number digits) h = elim h [ ]
length-print (string s) h = omega arith
length-print (array xs) h = omega arith
length-print (object fs) h = omega arith

length-append_text : (xs ys : Text) → length (xs ++ ys) ≡ length xs + length ys
length-append_text = length-append

ruleset lengths = (arith, length-append_text)

ruleset steps =
    (append_assoc, closes-quote, expect_sep-sep, skip_space-quote, read_string-quote, expect-colon)

value_at-quote :
    (items : Parser Items) (fields : Parser Fields) (s t : Text)
    → value_at items fields (skip_space (quote s ++ t)) ≡ some (string s, t)
unfolding quote skip_space
value_at-quote items fields s t = ap (read_as string) (read_string-quote s t)

mutual
  unfolding parse_value print IsValid starts_with

  parse_value-print :
      (v : Json) (t : Text) (f : ℕ)
      → IsValid v
      → 2 * length (print v) < f
      → parse_value f (print v ++ t) ≡ some (v, t)
  parse_value-print v t zero h enough = absurd (omega arith)
  parse_value-print null t (suc f) h enough = refl
  parse_value-print (bool true) t (suc f) h enough = refl
  parse_value-print (bool false) t (suc f) h enough = refl
  parse_value-print (number digits) t (suc f) h enough = elim h [ ]
  parse_value-print (string s) t (suc f) h enough =
      value_at-quote (parse_items f true) (parse_fields f true) s t
  parse_value-print (array xs) t (suc f) h enough =
      rw (parse_items-print xs true t f h (omega lengths)) refl
  parse_value-print (object fs) t (suc f) h enough =
      rw (parse_fields-print fs true t f h (omega lengths)) refl

  parse_items-print :
      (xs : Items) (first : Bool) (t : Text) (f : ℕ)
      → ItemsAreValid xs
      → suc (2 * length (print_items xs first)) < f
      → parse_items f first (print_items xs first ++ t) ≡ some (xs, t)
  parse_items-print xs first t zero h enough = absurd (omega arith)
  parse_items-print no_items first t (suc f) h enough = refl
  parse_items-print (item v xs) first t (suc f) h enough = simp (
    steps,
    closes-print first v (print_items xs false ++ t) h.0,
    parse_value-print v (print_items xs false ++ t) f h.0 (omega lengths),
    parse_items-print xs false t f h.1 (omega (lengths, length-print v h.0)),
  )

  parse_fields-print :
      (fs : Fields) (first : Bool) (t : Text) (f : ℕ)
      → FieldsAreValid fs
      → suc (2 * length (print_fields fs first)) < f
      → parse_fields f first (print_fields fs first ++ t) ≡ some (fs, t)
  parse_fields-print fs first t zero h enough = absurd (omega arith)
  parse_fields-print no_fields first t (suc f) h enough = refl
  parse_fields-print (field k v fs) first t (suc f) h enough = simp (
    steps,
    parse_value-print v (print_fields fs false ++ t) f h.1.0 (omega lengths),
    parse_fields-print fs false t f h.1.1 (omega (lengths, length-quote k)),
  )

-- The text that is written for a value of valid strings and no numbers reads back as that value.
pub parse-print : (v : Json) → IsValid v → parse (print v) ≡ some v
unfolding parse skip_space
parse-print v h =
    let whole = parse_value-print v [] (2 * length (print v) + 2) h (omega arith) in
    rw (rw append-nil at whole) refl
