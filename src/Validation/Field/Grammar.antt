-- ===== src/Validation/Field/Grammar.antt =====
-- What an accepted field name looks like: the grammar of document paths, stated without the
-- validator (pkg/validation/field_validator.go, ValidateFieldName).
use mathlib.Core.List.{append_assoc}
use table_theory.Base.{
  ℕ, suc, ◌-◌, ◌≤◌, ◌<◌, ◌≡◌, refl, sym, ap, ◌∙◌, ◌⊎◌, inl, inr, true, ◌||◌, Option, none, some,
  List, [], ◌∷◌, ◌++◌, arith, Text, codes, IsNonEmpty, contains, split, index_of, last_index_of,
  length, take, drop, get_elem?, all, All, All-map, All-of_all, ◌==◌, Bool-cases, and-eq_true, ok,
  >>=-eq-ok,
}
use table_theory.Base.Positions.{
  index_of-get_elem?, last_index_of-get_elem?, get_elem?-split, take-split, split_whole,
}
use table_theory.Validation.Field.{
  is_letter, is_digit, is_word, is_identifier, is_number, is_empty, whole_identifier, list_element,
  bracketed, validate_field_part, validate_parts, validate_nested_field_path, validate_path,
  validate_contents, validate_field_name_basics, validate_field_name, validate_field_name_lem,
}

abbrev pub IsLetter : ℕ → Type 0
IsLetter c = ((b'a' ≤ c) × (c ≤ b'z')) ⊎ ((b'A' ≤ c) × (c ≤ b'Z'))

abbrev pub IsDigit : ℕ → Type 0
IsDigit c = (b'0' ≤ c) × (c ≤ b'9')

abbrev pub IsWordChar : ℕ → Type 0
IsWordChar c = IsLetter c ⊎ IsDigit c ⊎ (c ≡ b'_')

abbrev pub IsIdentifier : Text → Type 0
IsIdentifier [] = ⊥
IsIdentifier (c ∷ s) = (IsLetter c ⊎ (c ≡ b'_')) × All IsWordChar s

-- `name[index]`
abbrev pub IsListElement : Text → Type 0
IsListElement part =
    (name : Text) × (index : Text) × (part ≡ name ++ b'[' ∷ (index ++ b']' ∷ []))
    × IsIdentifier name
    × IsNonEmpty index
    × All IsDigit index

abbrev pub IsPart : Text → Type 0
IsPart part = IsIdentifier part ⊎ IsListElement part

pub record IsFieldPath (field : Text) : Type 0 where
  pub bounded : length field ≤ 255
  pub shallow : length (split b'.' field) ≤ 32
  pub parts : All IsPart (split b'.' field)

letter_lem : (c : ℕ) → is_letter c ≡ true → IsLetter c
letter_lem c h = ground arith

word_lem : (c : ℕ) → is_word c ≡ true → IsWordChar c
word_lem c h = ground arith

identifier_lem : (s : Text) → is_identifier s ≡ true → IsIdentifier s
identifier_lem [] h = cc
identifier_lem (c ∷ s) h =
    let (front, rest) = and-eq_true (is_letter c || c == b'_') (all is_word s) h in
    (ground arith, All-map _ _ s word_lem (All-of_all is_word s rest))

number_lem : (s : Text) → is_number s ≡ true → IsNonEmpty s × All IsDigit s
number_lem [] h = cc
number_lem (c ∷ s) h =
    (tt, All-map _ _ (c ∷ s) (λ d e. ground arith) (All-of_all is_digit (c ∷ s) h))

is_empty_lem : (s : Text) → is_empty s ≡ true → s ≡ []
is_empty_lem [] h = refl
is_empty_lem (c ∷ s) h = cc

list_element_lem :
    (part : Text) (start stop : ℕ)
    → get_elem? part start ≡ some b'['
    → get_elem? part stop ≡ some b']'
    → list_element part start stop ≡ ok tt
    → IsListElement part
unfolding list_element
list_element_lem part start stop at_start at_stop h = (
  take start part,
  take (stop - suc start) (drop (suc start) part),
  shape,
  identifier_lem _ (ground arith),
  (number_lem _ (ground arith)).0,
  (number_lem _ (ground arith)).1,
)
  where
    ordered : start < stop
    ordered = ground arith

    ended : drop (suc stop) part ≡ []
    ended = is_empty_lem (drop (suc stop) part) (ground arith)

    shape :
        part
        ≡ take start part ++ b'[' ∷ (take (stop - suc start) (drop (suc start) part) ++ b']' ∷ [])
    shape =
        sym (get_elem?-split part stop b']' at_stop)
        ∙ ap (λ r. take stop part ++ b']' ∷ r) ended
        ∙ ap (λ r. r ++ b']' ∷ []) (take-split part start stop b'[' at_start ordered)
        ∙ append_assoc (take start part) _ _

bracketed_lem :
    (part : Text) (start stop : Option ℕ)
    → index_of b'[' part ≡ start
    → last_index_of b']' part ≡ stop
    → bracketed part start stop ≡ ok tt
    → IsPart part
unfolding bracketed whole_identifier
bracketed_lem part (some start) (some stop) e f h = inr (
    list_element_lem part start stop (index_of-get_elem? _ part start e)
      (last_index_of-get_elem? _ part stop f) h)
bracketed_lem part none stop e f h = inl (identifier_lem part (ground arith))
bracketed_lem part (some start) none e f h = inl (identifier_lem part (ground arith))

validate_field_part-IsPart : (part : Text) → validate_field_part part ≡ ok tt → IsPart part
unfolding validate_field_part
validate_field_part-IsPart [] h = cc
validate_field_part-IsPart (c ∷ s) h =
    bracketed_lem (c ∷ s) (index_of b'[' (c ∷ s)) (last_index_of b']' (c ∷ s)) refl refl h

validate_parts-IsPart : (parts : List Text) → validate_parts parts ≡ ok tt → All IsPart parts
unfolding validate_parts
validate_parts-IsPart [] h = tt
validate_parts-IsPart (part ∷ rest) h =
    (validate_field_part-IsPart part (ground arith), validate_parts-IsPart rest (ground arith))

validate_path_lem :
    (field : Text)
    → validate_path field ≡ ok tt
    → (length (split b'.' field) ≤ 32) × All IsPart (split b'.' field)
unfolding validate_path validate_nested_field_path
validate_path_lem field h = elim (Bool-cases (contains field (codes "."))) [
  | inl dotted ↦ (ground arith, validate_parts-IsPart (split b'.' field) (ground arith))
  | inr whole ↦
      rw (split_whole b'.' field whole)
        (omega arith, (validate_field_part-IsPart field (ground arith), tt))
]

validate_contents_lem :
    (field : Text) → validate_contents field ≡ ok tt → validate_path field ≡ ok tt
unfolding validate_contents
validate_contents_lem field h = ground arith

validate_field_name_basics_lem :
    (field : Text) → validate_field_name_basics field ≡ ok tt → length field ≤ 255
unfolding validate_field_name_basics
validate_field_name_basics_lem [] h = omega arith
validate_field_name_basics_lem (c ∷ s) h = ground arith

-- A field name that ValidateFieldName accepts is a document path: at most 255 characters, at most
-- 32 parts between the dots, and each part an identifier or `identifier[digits]`.
pub validate_field_name-IsFieldPath :
    (field : Text) → validate_field_name field ≡ ok tt → IsFieldPath field
validate_field_name-IsFieldPath field h =
    let (done, basics, contents) =
      >>=-eq-ok (validate_field_name_basics field) (λ _. validate_contents field)
        (sym (validate_field_name_lem field) ∙ h) in
    let (shallow, parts) = validate_path_lem field (validate_contents_lem field contents) in
    record {
      bounded = validate_field_name_basics_lem field basics;
      shallow = shallow;
      parts = parts;
    }
