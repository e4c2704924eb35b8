-- ===== src/Lease/Deployment.antt =====
-- The calls of pkg/lease/lease.go on a client that writes as DynamoDB documents.
use table_theory.Base.{
  Bool, true, false, some, [], ◌∷◌, ◌&&◌, Text, codes, lookup, ◌≡◌, refl, sym, ◌∙◌, inl, inr, ok,
  err, text_eq, text_eq_iff, Bool-cases, arith, and-eq_true, subst,
}
use table_theory.Base.Int.{ℤ, ◌+ℤ◌, leb_ℤ, ◌<ℤ◌}
use table_theory.Expr.{string_attr}
use table_theory.Lease.{
  Key, Lease, acquire_failed, refresh_failed, release_failed, lease_held, lease_not_owned, Manager,
}
use table_theory.Lease.Client.{
  DynamoDbLeaseApi, IsWrite, ConditionalWrites, Item, number, acquire_condition, refresh_condition,
}
use table_theory.Lease.Operations.{
  unix, acquire_refusal, refresh_refusal, release_refusal, acquire_input, refresh_input,
  release_input, acquire_item, writes_ttl, lease_of, answer, guarded, acquire_key, refresh, release,
}
use table_theory.Lease.Stored.{
  HasDistinctAttributes, IsStored, acquire_item-IsStored, lookup-key_item,
}

-- Whether two keys are the same.
abbrev pub same_key : Key → Key → Bool
same_key a b = text_eq a.pk b.pk && text_eq a.sk b.sk

-- A manager of the package with its client: the attribute names of the manager are the key of the
-- table and three others, and the client writes as DynamoDB documents.
pub record Deployment (Store : Type 0) : Type 1 where
  pub manager : Manager Store
  pub api : DynamoDbLeaseApi Store
  pub connected : manager.client ≡ some api
  pub distinct : HasDistinctAttributes manager
  pub laws : ConditionalWrites api manager.pk_attr manager.sk_attr

module _ {Store : Type 0} (d : Deployment Store) where
  abbrev pub item_at : Store → Text → Text → Item
  item_at s = d.laws.read s d.manager.table_name

  pub acquire_key-eq :
      (key : Key) (now : ℤ) (token : Text) (duration : ℤ) (s : Store)
      → acquire_key (some d.manager) key now token duration s
        ≡ guarded
            (acquire_refusal d.manager key duration)
            (answer
              (err (lease_held key))
              acquire_failed
              (lease_of key token (unix (now +ℤ duration))))
            (d.api.put_item (acquire_input d.manager key token (unix now) (unix (now +ℤ duration))))
            s
  unfolding acquire_key
  acquire_key-eq key now token duration s = rw d.connected refl

  pub refresh-eq :
      (lease : Lease) (now duration : ℤ) (s : Store)
      → refresh (some d.manager) lease now duration s
        ≡ guarded
            (refresh_refusal d.manager lease duration)
            (answer
              (err (lease_not_owned lease.key))
              refresh_failed
              (lease_of lease.key lease.token (unix (now +ℤ duration))))
            (d.api.update_item (refresh_input d.manager lease (unix now) (unix (now +ℤ duration))))
            s
  unfolding refresh
  refresh-eq lease now duration s = rw d.connected refl

  pub release-eq :
      (lease : Lease) (s : Store)
      → release (some d.manager) lease s
        ≡ guarded
            (release_refusal d.manager lease)
            (answer (ok tt) release_failed tt)
            (d.api.delete_item (release_input d.manager lease))
            s
  unfolding release
  release-eq lease s = rw d.connected refl

  pub same_key-item_at :
      (s : Store) (a b : Key) → same_key a b ≡ true → item_at s a.pk a.sk ≡ item_at s b.pk b.sk
  same_key-item_at s a b h =
      let (pk_eq, sk_eq) = and-eq_true (text_eq a.pk b.pk) (text_eq a.sk b.sk) h in
      cc ((text_eq_iff a.pk b.pk).0 pk_eq, (text_eq_iff a.sk b.sk).0 sk_eq)

  pub refresh_input-lookups :
      (lease : Lease) (now expires_at : ℤ)
      → let i = refresh_input d.manager lease now expires_at in
        (lookup (codes "#lease_token") i.names ≡ some d.manager.token_attr)
        × (lookup (codes "#lease_expires_at") i.names ≡ some d.manager.expires_at_attr)
        × (lookup (codes ":token") i.values ≡ some (string_attr lease.token))
        × (lookup (codes ":now") i.values ≡ some (number now))
        × (lookup (codes ":exp") i.values ≡ some (number expires_at))
  unfolding refresh_input lookup text_eq
  refresh_input-lookups lease now expires_at = elim (Bool-cases (writes_ttl d.manager)) [
    | inl with_ttl ↦ rw with_ttl (refl, refl, refl, refl, refl)
    | inr bare ↦ rw bare (refl, refl, refl, refl, refl)
  ]

  -- Whether the condition of a refresh holds in a state.
  abbrev pub refresh_holds : Lease → ℤ → ℤ → Store → Bool
  refresh_holds lease now expires_at s =
      let i = refresh_input d.manager lease now expires_at in
      d.laws.holds refresh_condition i.names i.values (item_at s lease.key.pk lease.key.sk)

  pub refresh_holds-owner :
      (lease : Lease) (now expires_at : ℤ) (s : Store)
      → refresh_holds lease now expires_at s ≡ true
      → lookup d.manager.token_attr (item_at s lease.key.pk lease.key.sk)
        ≡ some (string_attr lease.token)
  refresh_holds-owner lease now expires_at s h =
      let found = refresh_input-lookups lease now expires_at in
      d.laws.refresh_owner found.0 found.2 h

  pub refresh_writes :
      (lease : Lease) (now expires_at : ℤ) (s : Store)
      → IsWrite item_at lease.key.pk lease.key.sk
          (refresh_holds lease now expires_at s)
          (d.laws.updated
            (refresh_input d.manager lease now expires_at)
            (item_at s lease.key.pk lease.key.sk))
          s
          (d.api.update_item (refresh_input d.manager lease now expires_at) s)
  unfolding refresh_input
  refresh_writes lease now expires_at s =
      let key = lookup-key_item d.manager d.distinct lease.key in
      d.laws.update_writes (refresh_input d.manager lease now expires_at) s key.0 key.1

  -- Whether the condition of an acquisition holds in a state.
  abbrev pub acquire_holds : Key → ℤ → Store → Bool
  acquire_holds key now s =
      d.laws.holds acquire_condition
        ((codes "#pk", d.manager.pk_attr)
          ∷ (codes "#lease_expires_at", d.manager.expires_at_attr)
          ∷ [])
        ((codes ":now", number now) ∷ []) (item_at s key.pk key.sk)

  pub acquire_writes :
      (key : Key) (token : Text) (now expires_at : ℤ) (s : Store)
      → IsWrite item_at key.pk key.sk
          (acquire_holds key now s)
          (acquire_item d.manager key token expires_at)
          s
          (d.api.put_item (acquire_input d.manager key token now expires_at) s)
  unfolding acquire_input
  acquire_writes key token now expires_at s =
      let written = acquire_item-IsStored d.manager d.distinct key token expires_at in
      d.laws.put_writes (acquire_input d.manager key token now expires_at) s written.0.0 written.1

  -- The condition of an acquisition compares the expiry of the lease that is stored.
  pub acquire_holds-stored :
      (key : Key) (now : ℤ) (s : Store) (other : Lease)
      → IsStored d.manager other (item_at s key.pk key.sk)
      → acquire_holds key now s ≡ leb_ℤ other.expires_at now
  unfolding lookup text_eq
  acquire_holds-stored key now s other stored =
      d.laws.acquire_present now other.expires_at refl refl refl stored.0 stored.2

  pub acquire_holds-live :
      (key : Key) (now : ℤ) (s : Store) (other : Lease)
      → IsStored d.manager other (item_at s other.key.pk other.key.sk)
      → now <ℤ other.expires_at
      → same_key key other.key ≡ true
      → acquire_holds key now s ≡ false
  acquire_holds-live key now s other stored live same =
      let at_key = same_key-item_at s key other.key same in
      acquire_holds-stored key now s other (subst (IsStored d.manager other) (sym at_key) stored)
      ∙ ground (arith, live)
