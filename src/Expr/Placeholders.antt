-- ===== src/Expr/Placeholders.antt =====
-- What the placeholders of the builder keep (internal/expr/builder.go): counted placeholders above
-- the counters are free, so a new value never takes the place of an earlier one.
pub mod Actions
pub mod Resolve
use table_theory.Base.{
  ℕ, suc, ◌≤◌, ◌<◌, ◌≡◌, refl, sym, ap, ◌∙◌, ◌≢◌, inl, inr, Bool, true, false, Option, none, some,
  List, [], ◌∷◌, ◌++◌, arith, Text, codes, text_eq, text_eq_iff, lookup, insert, lookup-insert,
  lookup-insert_ne, lookup-insert_self, Assoc, HasDistinctKeys, insert-HasDistinctKeys, to_upper,
  to_upper_char, if◌then◌else◌, Bool-cases, Result, ok, err,
}
use table_theory.Base.Decimal.{format, format-injective}
use table_theory.Expr.{
  Builder, ConverterLookup, AttributeValue, Error, Action, new_builder_with_converter, ◌>>=◌, ◌>>◌,
  pure, raise, lift,
}
use table_theory.Expr.Names.{counted_name, counted_value, add_part, bind_value}
use table_theory.Expr.Reserved.{is_reserved_word}

pub record AreFresh (names : Assoc Text) (values : Assoc AttributeValue)
    (name_counter value_counter : ℕ) : Type 0 where
  pub values_fresh : (n : ℕ) → value_counter < n → lookup (counted_value n) values ≡ none
  pub names_fresh : (n : ℕ) → name_counter < n → lookup (counted_name n) names ≡ none
  pub names_distinct : HasDistinctKeys names

abbrev pub IsFresh : Builder → Type 0
IsFresh b = AreFresh b.names b.values b.name_counter b.value_counter

-- The state of the builder besides names, values and counters.
pub record Lists : Type 0 where
  pub update_expressions : Assoc (List Text)
  pub key_conditions : List Text
  pub filter_conditions : List Text
  pub conditions : List Text
  pub projections : List Text
  pub filter_operators : List Text
  pub condition_operators : List Text

abbrev pub lists_of : Builder → Lists
lists_of b = record {
  update_expressions = b.update_expressions;
  key_conditions = b.key_conditions;
  filter_conditions = b.filter_conditions;
  conditions = b.conditions;
  projections = b.projections;
  filter_operators = b.filter_operators;
  condition_operators = b.condition_operators;
}

-- Placeholders were added, and nothing that an earlier value placeholder stands for was lost.
pub record Extends (b c : Builder) : Type 0 where
  pub fresh : IsFresh c
  pub values_kept :
      (p : Text) (v : AttributeValue) → lookup p b.values ≡ some v → lookup p c.values ≡ some v
  pub lists_kept : lists_of c ≡ lists_of b

pub IsFresh-new_builder :
    (converter : Option ConverterLookup) → IsFresh (new_builder_with_converter converter)
unfolding new_builder_with_converter lookup
IsFresh-new_builder converter = record {
  values_fresh = λ n h. refl;
  names_fresh = λ n h. refl;
  names_distinct = tt;
}

pub Extends-refl : (b : Builder) → IsFresh b → Extends b b
Extends-refl b h = record { fresh = h; values_kept = λ p v e. e; lists_kept = refl }

pub Extends-trans : {a b c : Builder} → Extends a b → Extends b c → Extends a c
Extends-trans f g = record {
  fresh = g.fresh;
  values_kept = λ p v e. g.values_kept p v (f.values_kept p v e);
  lists_kept = g.lists_kept ∙ f.lists_kept;
}

counted_value-ne : (m n : ℕ) → m < n → counted_value m ≢ counted_value n
counted_value-ne m n h e =
    let same : format m ≡ format n = cc in omega (arith, format-injective same)

counted_name-ne : (m n : ℕ) → m < n → counted_name m ≢ counted_name n
counted_name-ne m n h e =
    let same : format m ≡ format n = cc in omega (arith, format-injective same)

pub bind_value-Extends :
    (av : AttributeValue) (b : Builder) → IsFresh b → Extends b (bind_value av b).0
unfolding bind_value
bind_value-Extends av b h = record {
  fresh = record {
    values_fresh = λ n above.
        lookup-insert_ne (counted_value (suc b.value_counter)) (counted_value n) av b.values
          (counted_value-ne _ n above)
        ∙ h.values_fresh n (omega arith);
    names_fresh = h.names_fresh;
    names_distinct = h.names_distinct;
  };
  values_kept = λ p v e.
      lookup-insert (counted_value (suc b.value_counter)) p av b.values
      ∙ ground (
        arith,
        e,
        text_eq_iff (counted_value (suc b.value_counter)) p,
        h.values_fresh (suc b.value_counter) (omega arith),
      );
  lists_kept = refl;
}

-- A word in capitals is no counted placeholder.
capital-ne : (c : ℕ) → to_upper_char c ≢ b'n'
unfolding to_upper_char
capital-ne c e = ground arith

reserved-ne : (part : Text) (n : ℕ) → codes "#" ++ to_upper part ≢ counted_name n
unfolding to_upper
reserved-ne [] n e = cc
reserved-ne (c ∷ s) n e = capital-ne c (cc)

add_part-ne :
    (part : Text) (b : Builder) (n : ℕ)
    → suc b.name_counter < n
    → (add_part part b).1 ≢ counted_name n
unfolding add_part
add_part-ne part b n above = elim (Bool-cases (is_reserved_word part)) [
  | inl reserved ↦ rw reserved (reserved-ne part n)
  | inr plain ↦ rw plain (counted_name-ne _ n above)
]

pub add_part-Extends : (part : Text) (b : Builder) → IsFresh b → Extends b (add_part part b).0
unfolding add_part
add_part-Extends part b h = record {
  fresh = record {
    values_fresh = h.values_fresh;
    names_fresh = λ n above.
        lookup-insert_ne (add_part part b).1 (counted_name n) part b.names
          (add_part-ne part b n above)
        ∙ h.names_fresh n (omega arith);
    names_distinct = insert-HasDistinctKeys _ part b.names h.names_distinct;
  };
  values_kept = λ p v e. e;
  lists_kept = refl;
}
