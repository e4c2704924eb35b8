-- ===== src/Expr/Groups.antt =====
-- What addFilterGroup of pkg/query/query.go does on the builders of internal/expr: a group is built by
-- a new builder and merged into the query's own. Its calls are those that go to the builder; groups in
-- groups and the errors that a query records are in Query/Chain/Groups.
use mathlib.Core.Option
use table_theory.Base.{
  ◌≡◌, refl, sym, ap, ◌∙◌, false, Option, none, some, List, [], ◌∷◌, ◌++◌, arith, Text, codes,
  text_eq_iff, text_eq_refl, lookup, insert, lookup-insert, Assoc, HasDistinctKeys, contains,
  Result, ok, err,
}
use table_theory.Validation.Value.{Value}
use table_theory.Validation.Field.{validate_field_name}
use table_theory.Expr.{
  Builder, ConverterLookup, AttributeValue, Error, Action, continue, pure,
  new_builder_with_converter,
}
use table_theory.Expr.Reserved.{is_reserved_word}
use table_theory.Expr.Names.{
  add_name_secure, add_part, bind_value, attribute_value_of, add_value_secure, counted_name,
}
use table_theory.Expr.Conditions.{
  validate_inputs, validate_inputs_lem, compared, build_condition, build_condition_lem,
  condition_of_equality,
}
use table_theory.Expr.Components.{ExpressionComponents, components_of, build}
use table_theory.Expr.Filters.{
  insert_all, push_filter, push_group, add_filter_condition, add_group_filter,
}
use table_theory.Expr.Placeholders.Resolve.{new_name, new_builder-absent}
use table_theory.Expr.Soundness.{IsSound-new_builder}
use table_theory.Expr.Soundness.Runs.{
  Call, filter, perform, run, run_single, run-IsSound, build-run_total,
}

-- The calls that the user's function leads to on the new builder. `none` is a panic.
unfoldable pub add_filter_group : Text → List Call → Builder → Option Builder
unfolding add_group_filter
add_filter_group group_operator calls b =
    Option.map (λ components. add_group_filter group_operator components b)
      (build (run calls (new_builder_with_converter b.converter)))

module _ {V : Type 0} where
  -- Where both maps have the key, the written one wins.
  pub over : Option V → Option V → Option V
  over none old = old
  over (some v) old = some v

  pub lookup-insert_all :
      (k : Text) (m target : Assoc V)
      → HasDistinctKeys m
      → lookup k (insert_all m target) ≡ over (lookup k m) (lookup k target)
  unfolding insert_all lookup over
  lookup-insert_all k [] target h = refl
  lookup-insert_all k ((j, v) ∷ m) target h =
      lookup-insert_all k m (insert j v target) h.1
      ∙ rw (lookup-insert j k v target) (ground (arith, text_eq_iff j k, h.0))

names-push_group : (op expr : Text) (b : Builder) → (push_group op expr b).names ≡ b.names
names-push_group op [] b = refl
names-push_group op (c ∷ expr) b = refl

values-push_group : (op expr : Text) (b : Builder) → (push_group op expr b).values ≡ b.values
values-push_group op [] b = refl
values-push_group op (c ∷ expr) b = refl

-- AddGroupFilter gives every placeholder of the group the group's meaning, and leaves the others as
-- they were in the builder.
pub lookup-add_group_filter :
    (op : Text) (components : ExpressionComponents) (b : Builder) (p : Text)
    → HasDistinctKeys components.expression_attribute_names
    → HasDistinctKeys components.expression_attribute_values
    → (lookup p (add_group_filter op components b).names
        ≡ over (lookup p components.expression_attribute_names) (lookup p b.names))
      × (lookup p (add_group_filter op components b).values
          ≡ over (lookup p components.expression_attribute_values) (lookup p b.values))
unfolding add_group_filter
lookup-add_group_filter op components b p h k = (
  ap (lookup p) (names-push_group op components.filter_expression _)
      ∙ lookup-insert_all p _ b.names h,
  ap (lookup p) (values-push_group op components.filter_expression _)
      ∙ lookup-insert_all p _ b.values k,
)

names-add_value_secure :
    (value : Value) (b : Builder) → (add_value_secure value b).0.names ≡ b.names
unfolding add_value_secure
names-add_value_secure value b = go (attribute_value_of b.converter value)
  where
    go : (r : Result Error AttributeValue) → (continue b r bind_value).0.names ≡ b.names
    go (ok av) = refl
    go (err e) = refl

names-compared :
    (name_ref op : Text) (value : Value) (b : Builder)
    → (compared name_ref op value b).0.names ≡ b.names
names-compared name_ref op value b = opened ∙ names-add_value_secure value b
  where
    go :
        (b' : Builder) (r : Result Error Text)
        → (continue b' r (λ value_ref. pure (name_ref ++ (op ++ value_ref)))).0.names ≡ b'.names
    go b' (ok p) = refl
    go b' (err e) = refl

    opened : (compared name_ref op value b).0.names ≡ (add_value_secure value b).0.names
    opened = unfold compared in go (add_value_secure value b).0 (add_value_secure value b).1

names-add_filter_condition :
    (op field operator : Text) (value : Value) (b : Builder)
    → (add_filter_condition op field operator value b).0.names
      ≡ (build_condition field operator value b).0.names
names-add_filter_condition op field operator value b =
    unfold add_filter_condition in
    go (build_condition field operator value b).0 (build_condition field operator value b).1
  where
    go :
        (b' : Builder) (r : Result Error Text) → (continue b' r (push_filter op)).0.names ≡ b'.names
    go b' (ok expr) = refl
    go b' (err e) = refl

-- An equality filter adds the placeholder of its field and no other name.
names-equality_filter :
    (op field : Text) (value : Value) (b : Builder)
    → validate_inputs field (codes "=") value ≡ ok tt
    → (perform (filter op field (codes "=") value) b).names ≡ (add_name_secure field b).0.names
names-equality_filter op field value b valid =
    unfold perform in
    names-add_filter_condition op field (codes "=") value b
    ∙ ap (λ (r : Builder × Result Error Text). r.0.names)
        (build_condition_lem field (codes "=") value b valid
          ∙ ap (λ (m : Action Text). m (add_name_secure field b).0) (condition_of_equality _ value))
    ∙ names-compared _ (codes " = ") value (add_name_secure field b).0

add_filter_group_lem :
    (op : Text) (calls : List Call) (b : Builder) (t : Text)
    → build (run calls (new_builder_with_converter b.converter))
      ≡ some (components_of (run calls (new_builder_with_converter b.converter)) t)
    → add_filter_group op calls b
      ≡ some (
          add_group_filter op
            (components_of (run calls (new_builder_with_converter b.converter)) t)
            b)
unfolding add_filter_group
add_filter_group_lem op calls b t e = ap (Option.map _) e

names-add_group_filter :
    (op : Text) (sub b : Builder) (t p : Text)
    → HasDistinctKeys sub.names
    → lookup p (add_group_filter op (components_of sub t) b).names
      ≡ over (lookup p sub.names) (lookup p b.names)
unfolding add_group_filter components_of
names-add_group_filter op sub b t p h =
    ap (lookup p) (names-push_group op t _) ∙ lookup-insert_all p sub.names b.names h

-- FilterGroup and OrFilterGroup rebind placeholders: afterwards a name placeholder stands for what
-- the group's own builder meant by it, and only where that has none for what the query meant.
pub lookup-names-add_filter_group :
    (op : Text) (calls : List Call) (b c : Builder) (p : Text)
    → add_filter_group op calls b ≡ some c
    → lookup p c.names
      ≡ over
          (lookup p (run calls (new_builder_with_converter b.converter)).names)
          (lookup p b.names)
lookup-names-add_filter_group op calls b c p e =
    let sub = run calls (new_builder_with_converter b.converter) in
    let (t, built) = build-run_total b.converter calls in
    let sound = run-IsSound calls _ (IsSound-new_builder b.converter) in
    let same : add_group_filter op (components_of sub t) b ≡ c =
      cc (add_filter_group_lem op calls b t built, e) in
    ap (λ (r : Builder). lookup p r.names) (sym same)
    ∙ names-add_group_filter op sub b t p sound.fresh.names_distinct

first_placeholder :
    (name : Text) (converter : Option ConverterLookup)
    → validate_field_name name ≡ ok tt
    → contains name (codes ".") ≡ false
    → is_reserved_word name ≡ false
    → (add_name_secure name (new_builder_with_converter converter)).0.names
      ≡ (counted_name 1, name) ∷ []
first_placeholder name converter valid whole plain =
    rw
      (new_name name (new_builder_with_converter converter) valid whole
        (new_builder-absent name converter))
      (unfold add_part new_builder_with_converter insert in rw plain)

-- One equality filter, as `Filter(field, "=", value)` adds it.
abbrev pub equality : Text → Value → Call
equality field value = filter (codes "AND") field (codes "=") value

validate_inputs-field :
    (field op : Text) (value : Value)
    → validate_inputs field op value ≡ ok tt
    → validate_field_name field ≡ ok tt
validate_inputs-field field op value e = ground (arith, validate_inputs_lem field op value)

lookup-first_equality :
    (field : Text) (value : Value) (converter : Option ConverterLookup)
    → validate_inputs field (codes "=") value ≡ ok tt
    → contains field (codes ".") ≡ false
    → is_reserved_word field ≡ false
    → lookup
        (counted_name 1)
        (perform (equality field value) (new_builder_with_converter converter)).names
      ≡ some field
lookup-first_equality field value converter valid whole plain =
    ap (lookup (counted_name 1)) (
      names-equality_filter (codes "AND") field value (new_builder_with_converter converter) valid
      ∙ first_placeholder field converter (validate_inputs-field field (codes "=") value valid)
          whole plain)
    ∙ (unfold lookup in rw (text_eq_refl (counted_name 1)))

-- A group on a filtered query captures its placeholder: `Filter(first, "=", v)` and then a group with
-- `Filter(second, "=", w)` leave `#n1`, by which the first condition names its field, bound to the
-- second field. The fields are accepted, have no dots, and are no reserved words.
pub add_filter_group-captures :
    (op first second : Text) (v w : Value) (converter : Option ConverterLookup) (c : Builder)
    → validate_inputs first (codes "=") v ≡ ok tt
    → validate_inputs second (codes "=") w ≡ ok tt
    → contains first (codes ".") ≡ false
    → contains second (codes ".") ≡ false
    → is_reserved_word first ≡ false
    → is_reserved_word second ≡ false
    → add_filter_group op
        (equality second w ∷ [])
        (perform (equality first v) (new_builder_with_converter converter))
      ≡ some c
    → (lookup
          (counted_name 1)
          (perform (equality first v) (new_builder_with_converter converter)).names
        ≡ some first)
      × (lookup (counted_name 1) c.names ≡ some second)
add_filter_group-captures op first second v w converter c vf vs whole whole' plain plain' e =
    let b = perform (equality first v) (new_builder_with_converter converter) in
    (
      lookup-first_equality first v converter vf whole plain,
      lookup-names-add_filter_group op (equality second w ∷ []) b c (counted_name 1) e
          ∙ ap (λ o. over o (lookup (counted_name 1) b.names))
              (ap (λ (r : Builder). lookup (counted_name 1) r.names)
                  (run_single (equality second w) _)
                ∙ lookup-first_equality second w b.converter vs whole' plain')
          ∙ (unfold over in refl),
    )
