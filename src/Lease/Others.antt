-- ===== src/Lease/Others.antt =====
-- The leases that a call of pkg/lease/lease.go leaves as they are.
use table_theory.Base.{
  Bool, true, false, some, ◌&&◌, Text, lookup, ◌≡◌, refl, ap, inl, inr, text_eq, text_eq_iff,
  Bool-cases,
}
use table_theory.Base.Int.{ℤ, ◌+ℤ◌, ◌<ℤ◌}
use table_theory.Expr.{string_attr}
use table_theory.Lease.{Key, Lease}
use table_theory.Lease.Operations.{unix, release_input, acquire_key, refresh, release}
use table_theory.Lease.Writes.{guarded-elsewhere}
use table_theory.Lease.Stored.{IsStored, lookup-key_item}
use table_theory.Lease.Deployment.{
  Deployment, item_at, acquire_key-eq, refresh-eq, release-eq, same_key, same_key-item_at,
  refresh_holds-owner, refresh_writes, acquire_writes, acquire_holds-live,
}

module _ {Store : Type 0} (d : Deployment Store) where
  -- Acquire leaves a lease alone that is stored and has not expired at its clock's reading.
  pub acquire_key-elsewhere :
      (key : Key) (now : ℤ) (token : Text) (duration : ℤ) (s : Store) (other : Lease)
      → IsStored d.manager other ((item_at d) s other.key.pk other.key.sk)
      → unix now <ℤ other.expires_at
      → (item_at d)
          (acquire_key (some d.manager) key now token duration s).0
          other.key.pk
          other.key.sk
        ≡ (item_at d) s other.key.pk other.key.sk
  acquire_key-elsewhere key now token duration s other stored live =
      rw (acquire_key-eq d key now token duration s) (
        guarded-elsewhere (item_at d) key.pk key.sk other.key.pk other.key.sk _ _ s _ _ _
          (acquire_writes d key token (unix now) (unix (now +ℤ duration)) s)
          (acquire_holds-live d key (unix now) s other stored live))

  -- A write that goes by the token of a lease is refused where another token is stored.
  other_owner :
      (lease other : Lease) (s : Store) (holds : Bool)
      → IsStored d.manager other ((item_at d) s other.key.pk other.key.sk)
      → same_key lease.key other.key && text_eq lease.token other.token ≡ false
      → (holds ≡ true
          → lookup d.manager.token_attr ((item_at d) s lease.key.pk lease.key.sk)
            ≡ some (string_attr lease.token))
      → same_key lease.key other.key ≡ true
      → holds ≡ false
  other_owner lease other s holds stored apart owner same = elim (Bool-cases holds) [
    | inl held ↦
        let at_key =
          ap (lookup d.manager.token_attr) (same_key-item_at d s lease.key other.key same) in
        let token : lease.token ≡ other.token = cc (owner held, at_key, stored.1) in
        absurd (cc (apart, same, (text_eq_iff lease.token other.token).1 token))
    | inr free ↦ free
  ]

  -- Refresh and Release leave every lease alone that has another key or another token.
  pub refresh-elsewhere :
      (lease : Lease) (now duration : ℤ) (s : Store) (other : Lease)
      → IsStored d.manager other ((item_at d) s other.key.pk other.key.sk)
      → same_key lease.key other.key && text_eq lease.token other.token ≡ false
      → (item_at d) (refresh (some d.manager) lease now duration s).0 other.key.pk other.key.sk
        ≡ (item_at d) s other.key.pk other.key.sk
  refresh-elsewhere lease now duration s other stored apart =
      rw (refresh-eq d lease now duration s) (
        guarded-elsewhere (item_at d) lease.key.pk lease.key.sk other.key.pk other.key.sk _ _ s _ _
          _ (refresh_writes d lease (unix now) (unix (now +ℤ duration)) s)
          (other_owner lease other s _ stored apart (refresh_holds-owner d lease _ _ s)))

  pub release-elsewhere :
      (lease : Lease) (s : Store) (other : Lease)
      → IsStored d.manager other ((item_at d) s other.key.pk other.key.sk)
      → same_key lease.key other.key && text_eq lease.token other.token ≡ false
      → (item_at d) (release (some d.manager) lease s).0 other.key.pk other.key.sk
        ≡ (item_at d) s other.key.pk other.key.sk
  unfolding release_input lookup text_eq
  release-elsewhere lease s other stored apart =
      let key = lookup-key_item d.manager d.distinct lease.key in
      rw (release-eq d lease s) (
        guarded-elsewhere (item_at d) lease.key.pk lease.key.sk other.key.pk other.key.sk _ _ s _ _
          _ (d.laws.delete_writes (release_input d.manager lease) s key.0 key.1)
          (other_owner lease other s _ stored apart (d.laws.release_owner refl refl).0))
