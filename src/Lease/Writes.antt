-- ===== src/Lease/Writes.antt =====
-- Conditional writes, and the calls of pkg/lease/lease.go that make them.
use table_theory.Base.{
  Bool, true, false, Option, none, some, ◌&&◌, Text, ◌≡◌, refl, inl, inr, Result, ok, err, text_eq,
  Bool-cases,
}
use table_theory.Lease.{Error}
use table_theory.Lease.Client.{
  ClientError, IsWrite, IsReplaced, conditional_check_failed, other_failure, Item,
}
use table_theory.Lease.Operations.{is_conditional_check_failed, answer, guarded}

module _ {Store : Type 0} (read : Store → Text → Text → Item) where
  replaced-elsewhere :
      (pk sk p q : Text) (c : Bool) (new : Item) (s s' : Store)
      → (c ≡ true) × IsReplaced read pk sk new s s'
      → (text_eq pk p && text_eq sk q ≡ true → c ≡ false)
      → read s' p q ≡ read s p q
  replaced-elsewhere pk sk p q c new s s' w h = elim (Bool-cases (text_eq pk p && text_eq sk q)) [
    | inl same ↦ absurd (cc (h same, w.0))
    | inr other ↦ w.1.1 p q other
  ]

  -- A write changes no item but the one at its key, and that one only when its condition holds.
  pub IsWrite-elsewhere :
      (pk sk p q : Text) (c : Bool) (new : Item) (s : Store)
      (out : Store × Result ClientError (Unit {0}))
      → IsWrite read pk sk c new s out
      → (text_eq pk p && text_eq sk q ≡ true → c ≡ false)
      → read out.0 p q ≡ read s p q
  unfolding IsWrite
  IsWrite-elsewhere pk sk p q c new s (s', ok done) w h =
      replaced-elsewhere pk sk p q c new s s' w h
  IsWrite-elsewhere pk sk p q c new s (s', err conditional_check_failed) w h = w.1 p q
  IsWrite-elsewhere pk sk p q c new s (s', err (other_failure e)) (inl unchanged) h = unchanged p q
  IsWrite-elsewhere pk sk p q c new s (s', err (other_failure e)) (inr w) h =
      replaced-elsewhere pk sk p q c new s s' w h

  pub guarded-elsewhere :
      {A : Type 0} (pk sk p q : Text) (c : Bool) (new : Item) (s : Store) (e : Option Error)
      (reply : Result ClientError (Unit {0}) → Result Error A)
      (write : Store → Store × Result ClientError (Unit {0}))
      → IsWrite read pk sk c new s (write s)
      → (text_eq pk p && text_eq sk q ≡ true → c ≡ false)
      → read (guarded e reply write s).0 p q ≡ read s p q
  unfolding guarded
  guarded-elsewhere pk sk p q c new s (some e) reply write w h = refl
  guarded-elsewhere pk sk p q c new s none reply write w h =
      IsWrite-elsewhere pk sk p q c new s (write s) w h

  answer-ok :
      {A : Type 0} (pk sk : Text) (c : Bool) (new : Item) (s : Store)
      (out : Store × Result ClientError (Unit {0})) (lost : Error) (failed : ClientError → Error)
      {value got : A}
      → IsWrite read pk sk c new s out
      → answer (err lost) failed value out.1 ≡ ok got
      → (got ≡ value) × (c ≡ true) × IsReplaced read pk sk new s out.0
  unfolding is_conditional_check_failed IsWrite
  answer-ok pk sk c new s (s', ok done) lost failed w h = (cc, w.0, w.1)
  answer-ok pk sk c new s (s', err conditional_check_failed) lost failed w h = absurd cc
  answer-ok pk sk c new s (s', err (other_failure e)) lost failed w h = absurd cc

  -- A lease is returned only by a write that took place.
  pub guarded-ok :
      {A : Type 0} (pk sk : Text) (c : Bool) (new : Item) (s : Store) (e : Option Error)
      (write : Store → Store × Result ClientError (Unit {0})) (lost : Error)
      (failed : ClientError → Error) {value got : A}
      → IsWrite read pk sk c new s (write s)
      → (guarded e (answer (err lost) failed value) write s).1 ≡ ok got
      → (got ≡ value)
        × (c ≡ true)
        × IsReplaced read pk sk new s (guarded e (answer (err lost) failed value) write s).0
  unfolding guarded
  guarded-ok pk sk c new s (some e) write lost failed w h = absurd cc
  guarded-ok pk sk c new s none write lost failed w h =
      answer-ok pk sk c new s (write s) lost failed w h
