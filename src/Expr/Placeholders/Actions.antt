-- ===== src/Expr/Placeholders/Actions.antt =====
-- Every action that builds a condition or an update only adds placeholders, whether it succeeds or
-- fails (internal/expr/builder.go).
use table_theory.Base.{
  Bool, true, false, Option, none, some, List, [], ◌∷◌, ◌++◌, Text, codes, contains, split, inl,
  inr, if◌then◌else◌, Result, ok, err, Bool-cases,
}
use table_theory.Validation.{Verdict}
use table_theory.Validation.Value.{Value, any_slice, none_left, more}
use table_theory.Validation.Field.{validate_field_name}
use table_theory.Expr.{Builder, AttributeValue, Error, Action, continue, ◌>>=◌, pure, raise, lift}
use table_theory.Expr.Names.{
  find_placeholder, add_part, add_parts, add_new_name, add_name_secure, named, add_name_secure_lem,
  add_new_name_lem, add_name, bind_value, attribute_value_of, add_value_secure,
}
use table_theory.Expr.Conditions.{
  compared, applied, two_values, between, add_values, in_values, condition_of, build_condition,
}
use table_theory.Expr.Placeholders.{
  IsFresh, Extends, Extends-refl, Extends-trans, bind_value-Extends, add_part-Extends,
}

-- The action leaves a builder that extends the one it started from.
pub record OnlyAdds {A : Type 0} (m : Action A) : Type 0 where
  pub at : (b : Builder) → IsFresh b → Extends b (m b).0

module _ {A : Type 0} where
  pub OnlyAdds-pure : (a : A) → OnlyAdds (pure a)
  OnlyAdds-pure a = record { at = Extends-refl }

  pub OnlyAdds-raise : (e : Error) → OnlyAdds (raise {A = A} e)
  OnlyAdds-raise e = record { at = Extends-refl }

  pub OnlyAdds-lift : (r : Result Error A) → OnlyAdds (lift r)
  OnlyAdds-lift r = record { at = Extends-refl }

  pub OnlyAdds-if :
      (t : Bool) (m n : Action A) → OnlyAdds m → OnlyAdds n → OnlyAdds (if t then m else n)
  OnlyAdds-if true m n hm hn = hm
  OnlyAdds-if false m n hm hn = hn

module _ {A B : Type 0} where
  pub OnlyAdds-bind :
      (m : Action A) (f : A → Action B)
      → OnlyAdds m
      → ((a : A) → OnlyAdds (f a))
      → OnlyAdds (m >>= f)
  OnlyAdds-bind m f hm hf = record { at = λ b h. go b (m b).0 (m b).1 (hm.at b h) }
    where
      go : (b b' : Builder) (r : Result Error A) → Extends b b' → Extends b (continue b' r f).0
      go b b' (ok a) e = Extends-trans e ((hf a).at b' e.fresh)
      go b b' (err x) e = e

add_parts-Extends :
    (parts done : List Text) (b : Builder) → IsFresh b → Extends b (add_parts parts done b).0
unfolding add_parts
add_parts-Extends [] done b h = Extends-refl b h
add_parts-Extends (part ∷ rest) done b h =
    let grown = add_part-Extends part b h in
    let ih =
      add_parts-Extends rest (done ++ (add_part part b).1 ∷ []) (add_part part b).0 grown.fresh in
    go (validate_field_name part) (Extends-trans grown ih)
  where
    go :
        (r : Verdict)
        → Extends b (add_parts rest (done ++ (add_part part b).1 ∷ []) (add_part part b).0).0
        → Extends b
            (elim r as (λ _. Builder × Text) [
              | err e ↦ (b, codes "#invalid")
              | ok valid ↦ add_parts rest (done ++ (add_part part b).1 ∷ []) (add_part part b).0
            ]).0
    go (ok valid) e = e
    go (err x) e = Extends-refl b h

add_new_name-Extends : (name : Text) (b : Builder) → IsFresh b → Extends b (add_new_name name b).0
add_new_name-Extends name b h = elim (Bool-cases (contains name (codes "."))) [
  | inl dotted ↦ rw (add_new_name_lem name b, dotted) (add_parts-Extends (split b'.' name) [] b h)
  | inr plain ↦ rw (add_new_name_lem name b, plain) (add_part-Extends name b h)
]

add_name_secure-Extends :
    (name : Text) (b : Builder) → IsFresh b → Extends b (add_name_secure name b).0
add_name_secure-Extends name b h =
    rw (add_name_secure_lem name b) (go (validate_field_name name) (find_placeholder name b.names))
  where
    go : (r : Verdict) (found : Option Text) → Extends b (named r found name b).0
    go (err e) found = Extends-refl b h
    go (ok valid) (some p) = Extends-refl b h
    go (ok valid) none = add_new_name-Extends name b h

pub add_name-OnlyAdds : (name : Text) → OnlyAdds (add_name name)
add_name-OnlyAdds name = record { at = add_name_secure-Extends name }

pub add_value_secure-OnlyAdds : (value : Value) → OnlyAdds (add_value_secure value)
unfolding add_value_secure
add_value_secure-OnlyAdds value = record {
  at = λ b h. go (attribute_value_of b.converter value) b h;
}
  where
    go :
        (r : Result Error AttributeValue) (b : Builder)
        → IsFresh b
        → Extends b (continue b r bind_value).0
    go (ok av) b h = bind_value-Extends av b h
    go (err e) b h = Extends-refl b h

pub ruleset only_adds = (
  OnlyAdds-pure, OnlyAdds-raise, OnlyAdds-lift, OnlyAdds-bind, OnlyAdds-if, add_name-OnlyAdds,
  add_value_secure-OnlyAdds,
)

compared-OnlyAdds : (name_ref op : Text) (value : Value) → OnlyAdds (compared name_ref op value)
unfolding compared
compared-OnlyAdds name_ref op value = search only_adds

applied-OnlyAdds :
    (function name_ref : Text) (value : Value) → OnlyAdds (applied function name_ref value)
unfolding applied
applied-OnlyAdds function name_ref value = search only_adds

two_values-OnlyAdds : (name_ref : Text) (low high : Value) → OnlyAdds (two_values name_ref low high)
unfolding two_values
two_values-OnlyAdds name_ref low high = search only_adds

between-OnlyAdds : (name_ref : Text) (value : Value) → OnlyAdds (between name_ref value)
unfolding between
between-OnlyAdds name_ref (any_slice (more low (more high none_left))) =
    two_values-OnlyAdds name_ref low high
between-OnlyAdds name_ref _ = OnlyAdds-raise _

add_values-OnlyAdds : (values : List Value) → OnlyAdds (add_values values)
unfolding add_values
add_values-OnlyAdds [] = OnlyAdds-pure []
add_values-OnlyAdds (value ∷ rest) =
    OnlyAdds-bind (add_value_secure value) _ (add_value_secure-OnlyAdds value) λ value_ref.
      OnlyAdds-bind (add_values rest) _ (add_values-OnlyAdds rest)
        λ value_refs. OnlyAdds-pure (value_ref ∷ value_refs)

in_values-OnlyAdds : (name_ref : Text) (value : Value) → OnlyAdds (in_values name_ref value)
unfolding in_values
in_values-OnlyAdds name_ref value = search (only_adds, add_values-OnlyAdds)

condition_of-OnlyAdds :
    (op name_ref : Text) (value : Value) → OnlyAdds (condition_of op name_ref value)
unfolding condition_of
condition_of-OnlyAdds op name_ref value =
    search (only_adds, compared-OnlyAdds, applied-OnlyAdds, between-OnlyAdds, in_values-OnlyAdds)
      depth 20

pub build_condition-OnlyAdds :
    (field operator : Text) (value : Value) → OnlyAdds (build_condition field operator value)
unfolding build_condition
build_condition-OnlyAdds field operator value = search (only_adds, condition_of-OnlyAdds)

-- On a builder whose counted placeholders above its counters are free, buildCondition, whether it
-- succeeds or fails, keeps the lists of conditions and expressions and what every value placeholder
-- stands for, and the counted placeholders above the new counters are free.
pub build_condition-Extends :
    (field operator : Text) (value : Value) (b : Builder)
    → IsFresh b
    → Extends b (build_condition field operator value b).0
build_condition-Extends field operator value = (build_condition-OnlyAdds field operator value).at
