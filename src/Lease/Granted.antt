-- ===== src/Lease/Granted.antt =====
-- The leases that Acquire and Refresh (pkg/lease/lease.go) return.
use table_theory.Base.{
  true, some, Text, insert, lookup, lookup-insert, ◌≡◌, refl, sym, ap, ◌∙◌, inl, inr, ok, text_eq,
  text_eq_refl, Bool-cases,
}
use table_theory.Base.Int.{ℤ, ◌+ℤ◌}
use table_theory.Expr.{string_attr}
use table_theory.Lease.{Key, Lease}
use table_theory.Lease.Client.{Item, number}
use table_theory.Lease.Operations.{
  unix, refresh_input, writes_ttl, ttl_of, lease_of, acquire_key, refresh,
}
use table_theory.Lease.Writes.{guarded-ok}
use table_theory.Lease.Stored.{IsStored, acquire_item-IsStored}
use table_theory.Lease.Deployment.{
  Deployment, item_at, acquire_key-eq, refresh-eq, refresh_holds-owner, refresh_writes,
  acquire_holds, acquire_writes,
}

module _ {Store : Type 0} (d : Deployment Store) where
  -- A lease that Acquire returns is the one it writes, and its condition held.
  pub acquire_key-ok :
      (key : Key) (now : ℤ) (token : Text) (duration : ℤ) (s : Store) {lease : Lease}
      → (acquire_key (some d.manager) key now token duration s).1 ≡ ok lease
      → (lease ≡ lease_of key token (unix (now +ℤ duration)))
        × (acquire_holds d key (unix now) s ≡ true)
        × IsStored d.manager lease
            ((item_at d) (acquire_key (some d.manager) key now token duration s).0 key.pk key.sk)
  acquire_key-ok key now token duration s h =
      let call = acquire_key-eq d key now token duration s in
      let expires_at = unix (now +ℤ duration) in
      let got =
        guarded-ok (item_at d) key.pk key.sk _ _ s _ _ _ _
          (acquire_writes d key token (unix now) expires_at s) (sym (ap (λ o. o.1) call) ∙ h) in
      let written = acquire_item-IsStored d.manager d.distinct key token expires_at in
      (got.0, got.1, rw (call, got.0, got.2.0) written.0)

  -- An item that holds the key and the token of a lease keeps them when its expiry is set.
  insert-IsStored :
      (lease : Lease) (expires_at : ℤ) (item : Item)
      → lookup d.manager.pk_attr item ≡ some (string_attr lease.key.pk)
      → lookup d.manager.token_attr item ≡ some (string_attr lease.token)
      → IsStored d.manager
          (lease_of lease.key lease.token expires_at)
          (insert d.manager.expires_at_attr (number expires_at) item)
  insert-IsStored lease expires_at item key owner = (
    rw (lookup-insert, d.distinct.3) key,
    rw (lookup-insert, d.distinct.5) owner,
    simp (lookup-insert, text_eq_refl),
  )

  insert_ttl-IsStored :
      (lease : Lease) (ttl : ℤ) (item : Item)
      → IsStored d.manager lease item
      → IsStored d.manager lease (insert d.manager.ttl_attr (number ttl) item)
  insert_ttl-IsStored lease ttl item h = (
    rw (lookup-insert, d.distinct.6) h.0,
    rw (lookup-insert, d.distinct.8) h.1,
    rw (lookup-insert, d.distinct.9) h.2,
  )

  IsStored-ext :
      (lease : Lease) (item same : Item)
      → ((a : Text) → lookup a same ≡ lookup a item)
      → IsStored d.manager lease item
      → IsStored d.manager lease same
  IsStored-ext lease item same h stored = (h _ ∙ stored.0, h _ ∙ stored.1, h _ ∙ stored.2)

  updated-IsStored :
      (lease : Lease) (now expires_at : ℤ) (item : Item)
      → lookup d.manager.pk_attr item ≡ some (string_attr lease.key.pk)
      → lookup d.manager.token_attr item ≡ some (string_attr lease.token)
      → IsStored d.manager
          (lease_of lease.key lease.token expires_at)
          (d.laws.updated (refresh_input d.manager lease now expires_at) item)
  unfolding refresh_input lookup text_eq
  updated-IsStored lease now expires_at item key owner =
      let new_lease = lease_of lease.key lease.token expires_at in
      let plain = insert-IsStored lease expires_at item key owner in
      elim (Bool-cases (writes_ttl d.manager)) [
        | inl with_ttl ↦
            IsStored-ext new_lease _ _
              (d.laws.updated_both (refresh_input d.manager lease now expires_at) item
                (rw with_ttl refl) (rw with_ttl refl) (rw with_ttl refl) (rw with_ttl refl)
                (rw with_ttl refl))
              (insert_ttl-IsStored new_lease (ttl_of d.manager expires_at) _ plain)
        | inr bare ↦
            IsStored-ext new_lease _ _
              (d.laws.updated_expiry (refresh_input d.manager lease now expires_at) item
                (rw bare refl) (rw bare refl) (rw bare refl))
              plain
      ]

  -- A refresh that takes place finds the item of its lease.
  refreshed-key :
      (lease : Lease) (s : Store)
      → lookup d.manager.token_attr (item_at d s lease.key.pk lease.key.sk)
        ≡ some (string_attr lease.token)
      → lookup d.manager.pk_attr (item_at d s lease.key.pk lease.key.sk)
        ≡ some (string_attr lease.key.pk)
  unfolding lookup
  refreshed-key lease s owner =
      elim (d.laws.read_key s d.manager.table_name lease.key.pk lease.key.sk) [
        | inl absent ↦ absurd (cc (sym (ap (lookup d.manager.token_attr) absent) ∙ owner))
        | inr key ↦ key
      ]

  -- A lease that Refresh returns is the given one with its new expiry, and its token was stored.
  pub refresh-ok :
      (lease : Lease) (now duration : ℤ) (s : Store) {new : Lease}
      → (refresh (some d.manager) lease now duration s).1 ≡ ok new
      → (new ≡ lease_of lease.key lease.token (unix (now +ℤ duration)))
        × (lookup d.manager.token_attr (item_at d s lease.key.pk lease.key.sk)
            ≡ some (string_attr lease.token))
        × IsStored d.manager new
            (item_at d (refresh (some d.manager) lease now duration s).0 lease.key.pk lease.key.sk)
  refresh-ok lease now duration s h =
      let call = refresh-eq d lease now duration s in
      let expires_at = unix (now +ℤ duration) in
      let got =
        guarded-ok (item_at d) lease.key.pk lease.key.sk _ _ s _ _ _ _
          (refresh_writes d lease (unix now) expires_at s) (sym (ap (λ o. o.1) call) ∙ h) in
      let owner = refresh_holds-owner d lease (unix now) expires_at s got.1 in
      (
        got.0,
        owner,
        rw (call, got.0, got.2.0)
            (updated-IsStored lease (unix now) expires_at _ (refreshed-key lease s owner) owner),
      )
