-- ===== src/Lease/Progress.antt =====
-- When Acquire and Release (pkg/lease/lease.go) succeed.
use table_theory.Base.{
  Bool, true, Option, none, some, [], Text, lookup, ◌≡◌, refl, ◌∙◌, ◌⊎◌, inl, inr, Result, ok, err,
  text_eq, arith,
}
use table_theory.Base.Int.{ℤ, ◌+ℤ◌, ◌≤ℤ◌}
use table_theory.Lease.{Key, Lease, Error}
use table_theory.Lease.Client.{ClientError, IsWrite, conditional_check_failed, other_failure, Item}
use table_theory.Lease.Operations.{
  unix, acquire_refusal, release_refusal, acquire_input, release_input, lease_of, answer, guarded,
  acquire_key, release,
}
use table_theory.Lease.Stored.{IsStored, lookup-key_item}
use table_theory.Lease.Deployment.{
  Deployment, item_at, acquire_key-eq, release-eq, acquire_holds, acquire_writes,
  acquire_holds-stored,
}

-- A call of the client that ended as DynamoDB answered it: it took place, or its condition failed.
abbrev pub IsAnswered : {Store : Type 0} → Store × Result ClientError (Unit {0}) → Type 0
IsAnswered (s, ok done) = Unit
IsAnswered (s, err conditional_check_failed) = Unit
IsAnswered (s, err (other_failure e)) = ⊥

module _ {Store : Type 0} (read : Store → Text → Text → Item) where
  answered-true :
      (pk sk : Text) (c : Bool) (new : Item) (s : Store)
      (out : Store × Result ClientError (Unit {0}))
      → IsWrite read pk sk c new s out
      → IsAnswered out
      → c ≡ true
      → (out.1 ≡ ok tt) × (read out.0 pk sk ≡ new)
  unfolding IsWrite
  answered-true pk sk c new s (s', ok done) w a h = (refl, w.1.0)
  answered-true pk sk c new s (s', err conditional_check_failed) w a h = absurd (cc (w.0, h))
  answered-true pk sk c new s (s', err (other_failure e)) w a h = absurd a

  guarded-true :
      {A : Type 0} (pk sk : Text) (c : Bool) (new : Item) (s : Store) (e : Option Error)
      (lost : Result Error A) (failed : ClientError → Error) (value : A)
      (write : Store → Store × Result ClientError (Unit {0}))
      → IsWrite read pk sk c new s (write s)
      → e ≡ none
      → IsAnswered (write s)
      → c ≡ true
      → ((guarded e (answer lost failed value) write s).1 ≡ ok value)
        × (read (guarded e (answer lost failed value) write s).0 pk sk ≡ new)
  unfolding guarded
  guarded-true pk sk c new s e lost failed value write w none_refused a h =
      let done = answered-true pk sk c new s (write s) w a h in
      rw (none_refused, done.0) (refl, done.1)

module _ {Store : Type 0} (d : Deployment Store) where
  -- The item at a key is absent, or holds a lease that has expired.
  abbrev pub IsFree : Key → ℤ → Store → Type 0
  IsFree key now s =
      (item_at d s key.pk key.sk ≡ [])
      ⊎ ((old : Lease) × IsStored d.manager old (item_at d s key.pk key.sk)
          × (old.expires_at ≤ℤ unix now))

  acquire_holds-free :
      (key : Key) (now : ℤ) (s : Store) → IsFree key now s → acquire_holds d key (unix now) s ≡ true
  acquire_holds-free key now s (inl absent) = d.laws.acquire_absent absent
  acquire_holds-free key now s (inr (old, stored, expired)) =
      acquire_holds-stored d key (unix now) s old stored ∙ ground (arith, expired)

  -- AcquireKey returns a lease, of the given key and token, when its arguments pass the checks, the
  -- key's item is absent or holds a lease that has expired at the clock's reading, and the client's
  -- call is answered.
  pub acquire_key-free :
      (key : Key) (now : ℤ) (token : Text) (duration : ℤ) (s : Store)
      → acquire_refusal d.manager key duration ≡ none
      → IsFree key now s
      → IsAnswered
          (d.api.put_item (acquire_input d.manager key token (unix now) (unix (now +ℤ duration))) s)
      → (acquire_key (some d.manager) key now token duration s).1
        ≡ ok (lease_of key token (unix (now +ℤ duration)))
  acquire_key-free key now token duration s passes free answered =
      rw (acquire_key-eq d key now token duration s)
        (guarded-true (item_at d) key.pk key.sk _ _ s _ _ _ _ _
          (acquire_writes d key token (unix now) (unix (now +ℤ duration)) s) passes answered
          (acquire_holds-free key now s free)).0

  -- Release of a stored lease, whether it has expired or not, succeeds and removes the item of its key
  -- when its arguments pass the checks and the client's call is answered.
  pub release-stored :
      (lease : Lease) (s : Store)
      → release_refusal d.manager lease ≡ none
      → IsStored d.manager lease (item_at d s lease.key.pk lease.key.sk)
      → IsAnswered (d.api.delete_item (release_input d.manager lease) s)
      → ((release (some d.manager) lease s).1 ≡ ok tt)
        × (item_at d (release (some d.manager) lease s).0 lease.key.pk lease.key.sk ≡ [])
  unfolding release_input lookup text_eq
  release-stored lease s passes stored answered =
      let key = lookup-key_item d.manager d.distinct lease.key in
      rw (release-eq d lease s) (
        guarded-true (item_at d) lease.key.pk lease.key.sk _ _ s _ _ _ _ _
          (d.laws.delete_writes (release_input d.manager lease) s key.0 key.1) passes answered
          ((d.laws.release_owner refl refl).1 stored.1))
