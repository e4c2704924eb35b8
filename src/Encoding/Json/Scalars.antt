-- ===== src/Encoding/Json/Scalars.antt =====
-- The text that json.Marshal writes is one of Unicode scalar values.
use table_theory.Base.{ℕ, refl, Bool, true, false, [], ◌∷◌, ◌++◌, Text, All, All-append, arith}
use table_theory.Encoding.Utf8.{IsScalar}
use table_theory.Encoding.Json.{
  Json, Items, Fields, null, bool, number, string, array, object, no_items, item, no_fields, field,
  escape_char, escape_text, quote, sep, print, print_items, print_fields,
}
use table_theory.Encoding.Json.RoundTrip.{IsValid, ItemsAreValid, FieldsAreValid}

escape_char-IsScalar : (c : ℕ) → IsScalar c → All IsScalar (escape_char c)
unfolding escape_char
escape_char-IsScalar c h = ground arith

escape_text-IsScalar : (s : Text) → All IsScalar s → All IsScalar (escape_text s)
unfolding escape_text
escape_text-IsScalar [] h = tt
escape_text-IsScalar (c ∷ s) h =
    All-append IsScalar (escape_char c) (escape_text s) (escape_char-IsScalar c h.0)
      (escape_text-IsScalar s h.1)

quote-IsScalar : (s : Text) → All IsScalar s → All IsScalar (quote s)
unfolding quote
quote-IsScalar s h =
    (refl, All-append IsScalar (escape_text s) (b'"' ∷ []) (escape_text-IsScalar s h) (refl, tt))

sep-IsScalar : (first : Bool) → All IsScalar (sep first)
sep-IsScalar true = tt
sep-IsScalar false = (refl, tt)

mutual
  unfolding print IsValid

  pub print-IsScalar : (v : Json) → IsValid v → All IsScalar (print v)
  print-IsScalar null h = (refl, (refl, (refl, (refl, tt))))
  print-IsScalar (bool true) h = (refl, (refl, (refl, (refl, tt))))
  print-IsScalar (bool false) h = (refl, (refl, (refl, (refl, (refl, tt)))))
  print-IsScalar (number digits) h = elim h [ ]
  print-IsScalar (string s) h = quote-IsScalar s h
  print-IsScalar (array xs) h = (refl, print_items-IsScalar xs true h)
  print-IsScalar (object fs) h = (refl, print_fields-IsScalar fs true h)

  print_items-IsScalar :
      (xs : Items) (first : Bool) → ItemsAreValid xs → All IsScalar (print_items xs first)
  print_items-IsScalar no_items first h = (refl, tt)
  print_items-IsScalar (item v xs) first h =
      All-append IsScalar (sep first) (print v ++ print_items xs false) (sep-IsScalar first) (
        All-append IsScalar (print v) (print_items xs false) (print-IsScalar v h.0)
          (print_items-IsScalar xs false h.1))

  print_fields-IsScalar :
      (fs : Fields) (first : Bool) → FieldsAreValid fs → All IsScalar (print_fields fs first)
  print_fields-IsScalar no_fields first h = (refl, tt)
  print_fields-IsScalar (field k v fs) first h =
      let value : All IsScalar (print v ++ print_fields fs false) =
        All-append IsScalar (print v) (print_fields fs false) (print-IsScalar v h.1.0)
          (print_fields-IsScalar fs false h.1.1) in
      All-append IsScalar (sep first) (quote k ++ b':' ∷ (print v ++ print_fields fs false))
        (sep-IsScalar first)
        (All-append IsScalar (quote k) (b':' ∷ (print v ++ print_fields fs false))
          (quote-IsScalar k h.0) (refl, value))
