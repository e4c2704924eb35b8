-- ===== src/Expr/Placeholders/Resolve.antt =====
-- What the placeholder of an attribute name stands for (addNameSecure, internal/expr/builder.go).
use table_theory.Base.{
  suc, ◌≡◌, refl, ap, ◌∙◌, ◌≢◌, ◌⊎◌, inl, inr, true, false, Option, none, some, [], ◌∷◌, ◌++◌,
  arith, Text, codes, text_eq_iff, text_eq_refl, text_eq-false, lookup, insert, lookup-insert_self,
  Assoc, HasDistinctKeys, contains, to_upper, Option-cases, ok,
}
use table_theory.Validation.Field.{validate_field_name}
use table_theory.Expr.{Builder, ConverterLookup, new_builder_with_converter}
use table_theory.Expr.Names.{
  find_placeholder, add_part, add_new_name_lem, add_name_secure, add_name_secure_lem,
}
use table_theory.Expr.Reserved.{is_reserved_word}
use table_theory.Expr.Placeholders.{IsFresh}

lookup-find_placeholder :
    (name p : Text) (m : Assoc Text)
    → HasDistinctKeys m
    → find_placeholder name m ≡ some p
    → lookup p m ≡ some name
unfolding find_placeholder lookup
lookup-find_placeholder name p [] h e = cc
lookup-find_placeholder name p ((q, attr) ∷ m) h e = ground (
  arith,
  h.0,
  text_eq_iff attr name,
  text_eq_iff q p,
  text_eq_refl q,
  lookup-find_placeholder name p m h.1,
)

find_placeholder-insert :
    (name p : Text) (m : Assoc Text)
    → find_placeholder name m ≡ none
    → find_placeholder name (insert p name m) ≡ some p
unfolding find_placeholder insert
find_placeholder-insert name p [] e = ground (arith, text_eq_refl name)
find_placeholder-insert name p ((q, attr) ∷ m) e =
    ground (arith, text_eq_refl name, find_placeholder-insert name p m)

-- The two ways of addNameSecure with a valid name that has no dots.
add_name-cases :
    (name : Text) (b : Builder)
    → validate_field_name name ≡ ok tt
    → contains name (codes ".") ≡ false
    → ((p : Text) × (find_placeholder name b.names ≡ some p) × (add_name_secure name b ≡ (b, p)))
      ⊎ ((find_placeholder name b.names ≡ none) × (add_name_secure name b ≡ add_part name b))
add_name-cases name b valid whole = elim (Option-cases (find_placeholder name b.names)) [
  | inl absent ↦
      inr (
        absent,
        rw (add_name_secure_lem name b, valid, absent) (rw (add_new_name_lem name b, whole)),
      )
  | inr (p, found) ↦ inl (p, found, rw (add_name_secure_lem name b, valid, found))
]

-- On a builder whose counted placeholders above its counters are free, the placeholder that
-- addNameSecure returns for a valid name without dots stands for that name.
pub lookup-add_name_secure :
    (name : Text) (b : Builder)
    → IsFresh b
    → validate_field_name name ≡ ok tt
    → contains name (codes ".") ≡ false
    → lookup (add_name_secure name b).1 (add_name_secure name b).0.names ≡ some name
lookup-add_name_secure name b fresh valid whole = elim (add_name-cases name b valid whole) [
  | inl (p, found, e) ↦ rw e (lookup-find_placeholder name p b.names fresh.names_distinct found)
  | inr (absent, e) ↦ rw e (unfold add_part in lookup-insert_self _ name b.names)
]

again :
    (name : Text) (b : Builder)
    → find_placeholder name b.names ≡ none
    → find_placeholder name (add_part name b).0.names ≡ some (add_part name b).1
unfolding add_part
again name b absent = find_placeholder-insert name _ b.names absent

repeated :
    (name : Text) (b : Builder)
    → validate_field_name name ≡ ok tt
    → find_placeholder name (add_part name b).0.names ≡ some (add_part name b).1
    → add_name_secure name (add_part name b).0 ≡ add_part name b
repeated name b valid found = rw (add_name_secure_lem name (add_part name b).0, valid, found)

-- Adding a valid name without dots again changes nothing and returns the placeholder that it has.
add_name_secure-twice :
    (name : Text) (b : Builder)
    → validate_field_name name ≡ ok tt
    → contains name (codes ".") ≡ false
    → add_name_secure name (add_name_secure name b).0 ≡ add_name_secure name b
add_name_secure-twice name b valid whole = elim (add_name-cases name b valid whole) [
  | inl (p, found, e) ↦ rw e e
  | inr (absent, e) ↦ rw e (repeated name b valid (again name b absent))
]

pub new_name :
    (name : Text) (b : Builder)
    → validate_field_name name ≡ ok tt
    → contains name (codes ".") ≡ false
    → find_placeholder name b.names ≡ none
    → add_name_secure name b ≡ add_part name b
new_name name b valid whole absent =
    rw (add_name_secure_lem name b, valid, absent) (rw (add_new_name_lem name b, whole))

same_reserved :
    (first second : Text)
    → to_upper first ≡ to_upper second
    → is_reserved_word first ≡ true
    → is_reserved_word second ≡ true
unfolding is_reserved_word
same_reserved first second same reserved = rw (← same) reserved

-- The placeholder of a reserved word.
abbrev capitals : Text → Text
capitals word = codes "#" ++ to_upper word

add_part_reserved :
    (word : Text) (b : Builder)
    → is_reserved_word word ≡ true
    → add_part word b ≡ (
      record b { name_counter = suc b.name_counter; names = insert (capitals word) word b.names },
      capitals word,
    )
unfolding add_part
add_part_reserved word b reserved = rw reserved

absent_other :
    (p first second : Text) → first ≢ second → find_placeholder second (insert p first []) ≡ none
unfolding find_placeholder insert
absent_other p first second ne = rw (text_eq-false first second ne)

pub new_builder-absent :
    (name : Text) (converter : Option ConverterLookup)
    → find_placeholder name (new_builder_with_converter converter).names ≡ none
unfolding find_placeholder new_builder_with_converter
new_builder-absent name converter = refl

new_builder-insert :
    (name : Text) (converter : Option ConverterLookup)
    → insert (capitals name) name (new_builder_with_converter converter).names
      ≡ insert (capitals name) name []
unfolding new_builder_with_converter
new_builder-insert name converter = refl

second_spelling :
    (first second : Text) (b : Builder)
    → b.names ≡ insert (capitals first) first []
    → validate_field_name second ≡ ok tt
    → contains second (codes ".") ≡ false
    → is_reserved_word first ≡ true
    → to_upper first ≡ to_upper second
    → first ≢ second
    → lookup (capitals first) (add_name_secure second b).0.names ≡ some second
second_spelling first second b held w whole reserved same ne =
    rw
      (
        new_name second b w whole (rw held (absent_other (capitals first) first second ne)),
        add_part_reserved second b (same_reserved first second same reserved),
        same,
      )
      (lookup-insert_self (capitals second) second b.names)

-- Two valid spellings of one reserved word share a placeholder: after both are added to a new
-- builder, the placeholder of the first stands for the second.
pub add_name_secure-same_capitals :
    (first second : Text) (converter : Option ConverterLookup)
    → validate_field_name first ≡ ok tt
    → validate_field_name second ≡ ok tt
    → contains first (codes ".") ≡ false
    → contains second (codes ".") ≡ false
    → is_reserved_word first ≡ true
    → to_upper first ≡ to_upper second
    → first ≢ second
    → let (b, p) = add_name_secure first (new_builder_with_converter converter) in
      lookup p (add_name_secure second b).0.names ≡ some second
add_name_secure-same_capitals first second converter v w whole whole' reserved same ne =
    let start = new_builder_with_converter converter in
    let first_part = add_part_reserved first start reserved in
    rw (new_name first start v whole (new_builder-absent first converter)) (
      rw (ap (λ (r : Builder × Text). r.1) first_part) (
        second_spelling first second (add_part first start).0
          (ap (λ (r : Builder × Text). r.0.names) first_part ∙ new_builder-insert first converter) w
          whole' reserved same ne))
