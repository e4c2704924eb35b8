-- ===== src/Expr/Names.antt =====
-- addNameSecure and addValueSecure (internal/expr/builder.go): the placeholders of attribute names
-- and values. A Go map is walked in the order of insertion here; Go leaves that order open.
use table_theory.Base.{
  ℕ, suc, Option, none, some, List, [], ◌∷◌, ◌++◌, Text, codes, text_eq, contains, split, join,
  to_upper, insert, Assoc, if◌then◌else◌, Result, ok, err, map_err, ◌≡◌, refl,
}
use table_theory.Base.Decimal.{format}
use table_theory.Validation.{Verdict}
use table_theory.Validation.Field.{validate_field_name}
use table_theory.Validation.Value.{Value, nil_value}
use table_theory.Expr.{
  Builder, ConverterLookup, AttributeValue, Error, wrapped, Action, ◌>>=◌, lift,
}
use table_theory.Expr.Reserved.{is_reserved_word}
use table_theory.Expr.Convert.{convert_to_attribute_value_secure}

-- The loop over `names`: the first placeholder of the attribute.
unfoldable pub find_placeholder : Text → Assoc Text → Option Text
find_placeholder name [] = none
find_placeholder name ((placeholder, attr_name) ∷ rest) =
    if text_eq attr_name name then some placeholder else find_placeholder name rest

abbrev pub counted_name : ℕ → Text
counted_name n = codes "#n" ++ format n

abbrev pub counted_value : ℕ → Text
counted_value n = codes ":v" ++ format n

-- The placeholder of one name or part, which is written to `names`.
unfoldable pub add_part : Text → Builder → Builder × Text
add_part part b =
    let counter = suc b.name_counter in
    let placeholder =
      if is_reserved_word part then codes "#" ++ to_upper part else counted_name counter in
    (record b { name_counter = counter; names = insert placeholder part b.names }, placeholder)

-- The loop over the parts of a nested name, with the pieces that are done in front.
unfoldable pub add_parts : List Text → List Text → Builder → Builder × Text
add_parts [] done b = (b, join (codes ".") done)
add_parts (part ∷ rest) done b = elim (validate_field_name part) [
  | err e ↦ (b, codes "#invalid")
  | ok valid ↦ add_parts rest (done ++ (add_part part b).1 ∷ []) (add_part part b).0
]

-- A name that is not yet in `names`.
unfoldable pub add_new_name : Text → Builder → Builder × Text
unfolding add_parts add_part
add_new_name name b =
    if contains name (codes ".") then add_parts (split b'.' name) [] b else add_part name b

pub add_new_name_lem :
    (name : Text) (b : Builder)
    → add_new_name name b
      ≡ (if contains name (codes ".") then add_parts (split b'.' name) [] b else add_part name b)
unfolding add_new_name
add_new_name_lem name b = refl

-- The placeholder of a name, after its validation and the search for it.
abbrev pub named : Verdict → Option Text → Text → Builder → Builder × Text
named (err e) found name b = (b, codes "#invalid")
named (ok valid) (some placeholder) name b = (b, placeholder)
named (ok valid) none name b = add_new_name name b

unfoldable pub add_name_secure : Text → Builder → Builder × Text
unfolding validate_field_name find_placeholder add_new_name insert split join format
    is_reserved_word
add_name_secure name b = named (validate_field_name name) (find_placeholder name b.names) name b

pub add_name_secure_lem :
    (name : Text) (b : Builder)
    → add_name_secure name b
      ≡ named (validate_field_name name) (find_placeholder name b.names) name b
unfolding add_name_secure
add_name_secure_lem name b = refl

abbrev pub add_name : Text → Action Text
add_name name b = let (b', placeholder) = add_name_secure name b in (b', ok placeholder)

-- The next value placeholder, bound to the attribute value.
unfoldable pub bind_value : AttributeValue → Action Text
bind_value av b =
    let counter = suc b.value_counter in
    (
      record b { value_counter = counter; values = insert (counted_value counter) av b.values },
      ok (counted_value counter),
    )

-- A registered converter comes before the security validation; the error paths add no placeholder.
unfoldable pub attribute_value_of : Option ConverterLookup → Value → Result Error AttributeValue
attribute_value_of none value =
    map_err (wrapped "failed to convert value") (convert_to_attribute_value_secure value)
attribute_value_of (some converter) nil_value =
    map_err (wrapped "failed to convert value") (convert_to_attribute_value_secure nil_value)
attribute_value_of (some converter) value =
    if converter.has_custom_converter value
    then map_err (wrapped "custom converter failed") (converter.to_attribute_value value)
    else map_err (wrapped "failed to convert value") (convert_to_attribute_value_secure value)

unfoldable pub add_value_secure : Value → Action Text
unfolding attribute_value_of bind_value convert_to_attribute_value_secure insert format
add_value_secure value b = (do av ← lift (attribute_value_of b.converter value); bind_value av) b
