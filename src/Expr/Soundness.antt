-- ===== src/Expr/Soundness.antt =====
-- The invariant of the expression builder (internal/expr/builder.go): counted placeholders above the
-- counters are free, and each list of conditions has a connective between every two neighbours.
pub mod Operations
pub mod Runs
pub mod Linked
use table_theory.Base.{
  ℕ, suc, ◌-◌, ◌+◌, ◌≡◌, refl, Bool, true, false, Option, none, some, List, [], ◌∷◌, ◌++◌, arith,
  Text, codes, length, length-append, lookup, if◌then◌else◌, Result, ok, err, ltb, ap, sym, ◌∙◌,
}
use table_theory.Expr.{
  Builder, AttributeValue, Error, Action, continue, ◌>>=◌, ◌>>◌, pure, raise, lift, ConverterLookup,
  new_builder_with_converter,
}
use table_theory.Expr.Filters.{with_operator}
use table_theory.Expr.Updates.{push_update}
use table_theory.Expr.Placeholders.{IsFresh, Extends, IsFresh-new_builder, lists_of, Lists}
use table_theory.Expr.Placeholders.Actions.{OnlyAdds}

pub record IsSound (b : Builder) : Type 0 where
  pub fresh : IsFresh b
  pub filters_linked : length b.filter_operators ≡ length b.filter_conditions - 1
  pub conditions_linked : length b.condition_operators ≡ length b.conditions - 1

pub IsSound-new_builder :
    (converter : Option ConverterLookup) → IsSound (new_builder_with_converter converter)
unfolding new_builder_with_converter
IsSound-new_builder converter = record {
  fresh = unfold new_builder_with_converter in IsFresh-new_builder converter;
  filters_linked = refl;
  conditions_linked = refl;
}

-- `c` is sound and has every value that a placeholder of `b` stands for.
pub record Follows (b c : Builder) : Type 0 where
  pub sound : IsSound c
  pub values_kept :
      (p : Text) (v : AttributeValue) → lookup p b.values ≡ some v → lookup p c.values ≡ some v

pub Follows-refl : {b : Builder} → IsSound b → Follows b b
Follows-refl h = record { sound = h; values_kept = λ p v e. e }

pub Follows-trans : {a b c : Builder} → Follows a b → Follows b c → Follows a c
Follows-trans f g = record {
  sound = g.sound;
  values_kept = λ p v e. g.values_kept p v (f.values_kept p v e);
}

-- The action keeps the invariant and the values, whether it succeeds or fails.
pub record Keeps {A : Type 0} (m : Action A) : Type 0 where
  pub at : (b : Builder) → IsSound b → Follows b (m b).0

Extends-IsSound : {b c : Builder} → IsSound b → Extends b c → IsSound c
Extends-IsSound h e = record {
  fresh = e.fresh;
  filters_linked =
      ap (λ (l : Lists). length l.filter_operators) e.lists_kept
      ∙ h.filters_linked
      ∙ ap (λ (l : Lists). length l.filter_conditions - 1) (sym e.lists_kept);
  conditions_linked =
      ap (λ (l : Lists). length l.condition_operators) e.lists_kept
      ∙ h.conditions_linked
      ∙ ap (λ (l : Lists). length l.conditions - 1) (sym e.lists_kept);
}

module _ {A : Type 0} where
  pub Keeps-pure : (a : A) → Keeps (pure a)
  Keeps-pure a = record { at = λ b h. Follows-refl h }

  pub Keeps-raise : (e : Error) → Keeps (raise {A = A} e)
  Keeps-raise e = record { at = λ b h. Follows-refl h }

  pub Keeps-lift : (r : Result Error A) → Keeps (lift r)
  Keeps-lift r = record { at = λ b h. Follows-refl h }

  pub Keeps-if : (t : Bool) (m n : Action A) → Keeps m → Keeps n → Keeps (if t then m else n)
  Keeps-if true m n hm hn = hm
  Keeps-if false m n hm hn = hn

  pub Keeps-OnlyAdds : (m : Action A) → OnlyAdds m → Keeps m
  Keeps-OnlyAdds m h = record {
    at = λ b s.
        let e = h.at b s.fresh in
        record { sound = Extends-IsSound s e; values_kept = e.values_kept };
  }

module _ {A B : Type 0} where
  pub Keeps-bind :
      (m : Action A) (f : A → Action B) → Keeps m → ((a : A) → Keeps (f a)) → Keeps (m >>= f)
  Keeps-bind m f hm hf = record { at = λ b h. go b (m b).0 (m b).1 (hm.at b h) }
    where
      go : (b b' : Builder) (r : Result Error A) → Follows b b' → Follows b (continue b' r f).0
      go b b' (ok a) h = Follows-trans h ((hf a).at b' h.sound)
      go b b' (err x) h = h

pub ruleset keeps_rules =
    (Keeps-pure, Keeps-raise, Keeps-lift, Keeps-if, Keeps-bind, Keeps-OnlyAdds)

pub push_update-Keeps : (action expr : Text) → Keeps (push_update action expr)
unfolding push_update
push_update-Keeps action expr = record {
  at = λ b h. record {
    sound = record {
      fresh = h.fresh;
      filters_linked = h.filters_linked;
      conditions_linked = h.conditions_linked;
    };
    values_kept = λ p v e. e;
  };
}

-- Pushing an element and its connective keeps the two lists in step.
pub with_operator_linked :
    (conditions : List Text) (expr op : Text) (operators : List Text)
    → length operators ≡ length conditions - 1
    → length (with_operator (conditions ++ expr ∷ []) op operators)
      ≡ length (conditions ++ expr ∷ []) - 1
with_operator_linked [] expr op operators h = ground arith
with_operator_linked (c ∷ conditions) expr op operators h =
    ground (arith, length-append conditions (expr ∷ []), length-append operators (op ∷ []))
