-- ===== src/Expr/Soundness/Linked.antt =====
-- Between every two neighbouring filters stands a connective, on any builder, also one whose
-- placeholders a group has overwritten: Build does not panic (internal/expr/builder.go).
use mathlib.Core.Option
use table_theory.Base.{
  Bool, true, false, Option, none, some, List, [], ◌∷◌, ◌++◌, ◌-◌, Text, codes, contains, split,
  inl, inr, if◌then◌else◌, Result, ok, err, Bool-cases, ◌≡◌, ap, length,
}
use table_theory.Validation.{Verdict}
use table_theory.Validation.Value.{Value, any_slice, none_left, more}
use table_theory.Validation.Field.{validate_field_name}
use table_theory.Expr.{Builder, AttributeValue, Error, Action, continue, ◌>>=◌, pure, raise, lift}
use table_theory.Expr.Names.{
  find_placeholder, add_part, add_parts, add_new_name, add_name_secure, named, add_name_secure_lem,
  add_new_name_lem, add_name, bind_value, attribute_value_of, add_value_secure,
}
use table_theory.Expr.Conditions.{
  compared, applied, two_values, between, add_values, in_values, condition_of, build_condition,
}
use table_theory.Expr.Filters.{
  push_filter, push_key_condition, push_group, add_key_condition, add_filter_condition,
  add_group_filter, add_projection,
}
use table_theory.Expr.Components.{ExpressionComponents, components_of, build}
use table_theory.Expr.Soundness.{with_operator_linked}
use table_theory.Expr.Soundness.Runs.{build_filter_total}

abbrev pub IsLinked : Builder → Type 0
IsLinked b = length b.filter_operators ≡ length b.filter_conditions - 1

-- The action leaves a linked builder linked, whether it succeeds or fails.
pub record KeepsLinked {A : Type 0} (m : Action A) : Type 0 where
  pub at : (b : Builder) → IsLinked b → IsLinked (m b).0

pub build-IsLinked : (b : Builder) → IsLinked b → (t : Text) × (build b ≡ some (components_of b t))
unfolding build
build-IsLinked b linked =
    let (t, e) = build_filter_total b.filter_conditions b.filter_operators linked in
    (t, ap (Option.map _) e)

module _ {A : Type 0} where
  pub KeepsLinked-pure : (a : A) → KeepsLinked (pure a)
  KeepsLinked-pure a = record { at = λ b h. h }

  pub KeepsLinked-raise : (e : Error) → KeepsLinked (raise {A = A} e)
  KeepsLinked-raise e = record { at = λ b h. h }

  pub KeepsLinked-lift : (r : Result Error A) → KeepsLinked (lift r)
  KeepsLinked-lift r = record { at = λ b h. h }

  pub KeepsLinked-if :
      (t : Bool) (m n : Action A) → KeepsLinked m → KeepsLinked n → KeepsLinked (if t then m else n)
  KeepsLinked-if true m n hm hn = hm
  KeepsLinked-if false m n hm hn = hn

module _ {A B : Type 0} where
  pub KeepsLinked-bind :
      (m : Action A) (f : A → Action B)
      → KeepsLinked m
      → ((a : A) → KeepsLinked (f a))
      → KeepsLinked (m >>= f)
  KeepsLinked-bind m f hm hf = record { at = λ b h. go (m b).0 (m b).1 (hm.at b h) }
    where
      go : (b : Builder) (r : Result Error A) → IsLinked b → IsLinked (continue b r f).0
      go b (ok a) h = (hf a).at b h
      go b (err x) h = h

add_parts-IsLinked :
    (parts done : List Text) (b : Builder) → IsLinked b → IsLinked (add_parts parts done b).0
unfolding add_parts add_part
add_parts-IsLinked [] done b h = h
add_parts-IsLinked (part ∷ rest) done b h =
    go (validate_field_name part)
      (add_parts-IsLinked rest (done ++ (add_part part b).1 ∷ []) (add_part part b).0 h)
  where
    go :
        (r : Verdict)
        → IsLinked (add_parts rest (done ++ (add_part part b).1 ∷ []) (add_part part b).0).0
        → IsLinked
            (elim r as (λ _. Builder × Text) [
              | err e ↦ (b, codes "#invalid")
              | ok valid ↦ add_parts rest (done ++ (add_part part b).1 ∷ []) (add_part part b).0
            ]).0
    go (ok valid) e = e
    go (err x) e = h

add_new_name-IsLinked : (name : Text) (b : Builder) → IsLinked b → IsLinked (add_new_name name b).0
unfolding add_part
add_new_name-IsLinked name b h = elim (Bool-cases (contains name (codes "."))) [
  | inl dotted ↦ rw (add_new_name_lem name b, dotted) (add_parts-IsLinked (split b'.' name) [] b h)
  | inr plain ↦ rw (add_new_name_lem name b, plain) h
]

add_name_secure-IsLinked :
    (name : Text) (b : Builder) → IsLinked b → IsLinked (add_name_secure name b).0
add_name_secure-IsLinked name b h =
    rw (add_name_secure_lem name b) (go (validate_field_name name) (find_placeholder name b.names))
  where
    go : (r : Verdict) (found : Option Text) → IsLinked (named r found name b).0
    go (err e) found = h
    go (ok valid) (some p) = h
    go (ok valid) none = add_new_name-IsLinked name b h

add_name-KeepsLinked : (name : Text) → KeepsLinked (add_name name)
add_name-KeepsLinked name = record { at = add_name_secure-IsLinked name }

add_value_secure-KeepsLinked : (value : Value) → KeepsLinked (add_value_secure value)
unfolding add_value_secure bind_value
add_value_secure-KeepsLinked value = record {
  at = λ b h. go (attribute_value_of b.converter value) b h;
}
  where
    go :
        (r : Result Error AttributeValue) (b : Builder)
        → IsLinked b
        → IsLinked (continue b r bind_value).0
    go (ok av) b h = h
    go (err e) b h = h

push_filter-KeepsLinked : (op expr : Text) → KeepsLinked (push_filter op expr)
push_filter-KeepsLinked op expr = record {
  at = λ b h. with_operator_linked b.filter_conditions expr op b.filter_operators h;
}

push_key_condition-KeepsLinked : (expr : Text) → KeepsLinked (push_key_condition expr)
push_key_condition-KeepsLinked expr = record { at = λ b h. h }

ruleset linked = (
  KeepsLinked-pure, KeepsLinked-raise, KeepsLinked-lift, KeepsLinked-bind, KeepsLinked-if,
  add_name-KeepsLinked, add_value_secure-KeepsLinked, push_filter-KeepsLinked,
  push_key_condition-KeepsLinked,
)

compared-KeepsLinked :
    (name_ref op : Text) (value : Value) → KeepsLinked (compared name_ref op value)
unfolding compared
compared-KeepsLinked name_ref op value = search linked

applied-KeepsLinked :
    (function name_ref : Text) (value : Value) → KeepsLinked (applied function name_ref value)
unfolding applied
applied-KeepsLinked function name_ref value = search linked

two_values-KeepsLinked :
    (name_ref : Text) (low high : Value) → KeepsLinked (two_values name_ref low high)
unfolding two_values
two_values-KeepsLinked name_ref low high = search linked

between-KeepsLinked : (name_ref : Text) (value : Value) → KeepsLinked (between name_ref value)
unfolding between
between-KeepsLinked name_ref (any_slice (more low (more high none_left))) =
    two_values-KeepsLinked name_ref low high
between-KeepsLinked name_ref _ = KeepsLinked-raise _

add_values-KeepsLinked : (values : List Value) → KeepsLinked (add_values values)
unfolding add_values
add_values-KeepsLinked [] = KeepsLinked-pure []
add_values-KeepsLinked (value ∷ rest) =
    KeepsLinked-bind (add_value_secure value) _ (add_value_secure-KeepsLinked value) λ value_ref.
      KeepsLinked-bind (add_values rest) _ (add_values-KeepsLinked rest)
        λ value_refs. KeepsLinked-pure (value_ref ∷ value_refs)

in_values-KeepsLinked : (name_ref : Text) (value : Value) → KeepsLinked (in_values name_ref value)
unfolding in_values
in_values-KeepsLinked name_ref value = search (linked, add_values-KeepsLinked)

condition_of-KeepsLinked :
    (op name_ref : Text) (value : Value) → KeepsLinked (condition_of op name_ref value)
unfolding condition_of
condition_of-KeepsLinked op name_ref value =
    search
      (
        linked, compared-KeepsLinked, applied-KeepsLinked, between-KeepsLinked,
        in_values-KeepsLinked,
      )
      depth 20

build_condition-KeepsLinked :
    (field operator : Text) (value : Value) → KeepsLinked (build_condition field operator value)
unfolding build_condition
build_condition-KeepsLinked field operator value = search (linked, condition_of-KeepsLinked)

pub add_filter_condition-KeepsLinked :
    (op field operator : Text) (value : Value)
    → KeepsLinked (add_filter_condition op field operator value)
unfolding add_filter_condition
add_filter_condition-KeepsLinked op field operator value =
    search (linked, build_condition-KeepsLinked)

pub add_key_condition-KeepsLinked :
    (field operator : Text) (value : Value) → KeepsLinked (add_key_condition field operator value)
unfolding add_key_condition
add_key_condition-KeepsLinked field operator value = search (linked, build_condition-KeepsLinked)

pub add_projection-IsLinked :
    (fields : List Text) (b : Builder) → IsLinked b → IsLinked (add_projection fields b)
unfolding add_projection
add_projection-IsLinked [] b h = h
add_projection-IsLinked (field ∷ fields) b h =
    add_projection-IsLinked fields _ (add_name_secure-IsLinked field b h)

push_group-IsLinked : (op expr : Text) (b : Builder) → IsLinked b → IsLinked (push_group op expr b)
push_group-IsLinked op [] b h = h
push_group-IsLinked op (c ∷ expr) b h = (push_filter-KeepsLinked op _).at b h

pub add_group_filter-IsLinked :
    (op : Text) (components : ExpressionComponents) (b : Builder)
    → IsLinked b
    → IsLinked (add_group_filter op components b)
unfolding add_group_filter
add_group_filter-IsLinked op components b h =
    push_group-IsLinked op components.filter_expression _ h
