-- ===== src/Lease/Stored.antt =====
-- What Acquire, Refresh and Release (pkg/lease/lease.go) do to the items of the table.
use table_theory.Base.{
  false, some, Text, lookup, lookup-insert, ◌≡◌, inl, inr, text_eq, text_eq_refl, Bool-cases,
}
use table_theory.Base.Int.{ℤ}
use table_theory.Expr.{string_attr}
use table_theory.Lease.{Key, Lease, Manager}
use table_theory.Lease.Client.{Item, number}
use table_theory.Lease.Operations.{key_item, lease_item, acquire_item, writes_ttl, lease_of}

-- The five attribute names of a manager are different from one another.
abbrev pub HasDistinctAttributes : {Store : Type 0} → Manager Store → Type 0
HasDistinctAttributes m =
    (text_eq m.sk_attr m.pk_attr ≡ false)
    × (text_eq m.token_attr m.pk_attr ≡ false)
    × (text_eq m.token_attr m.sk_attr ≡ false)
    × (text_eq m.expires_at_attr m.pk_attr ≡ false)
    × (text_eq m.expires_at_attr m.sk_attr ≡ false)
    × (text_eq m.expires_at_attr m.token_attr ≡ false)
    × (text_eq m.ttl_attr m.pk_attr ≡ false)
    × (text_eq m.ttl_attr m.sk_attr ≡ false)
    × (text_eq m.ttl_attr m.token_attr ≡ false)
    × (text_eq m.ttl_attr m.expires_at_attr ≡ false)

-- An item that holds a lease: its key, and the token and the expiry of the lease.
abbrev pub IsStored : {Store : Type 0} → Manager Store → Lease → Item → Type 0
IsStored m lease item =
    (lookup m.pk_attr item ≡ some (string_attr lease.key.pk))
    × (lookup m.token_attr item ≡ some (string_attr lease.token))
    × (lookup m.expires_at_attr item ≡ some (number lease.expires_at))

module _ {Store : Type 0} (m : Manager Store) (distinct : HasDistinctAttributes m) where
  pub lookup-key_item :
      (key : Key)
      → (lookup m.pk_attr (key_item m key) ≡ some (string_attr key.pk))
        × (lookup m.sk_attr (key_item m key) ≡ some (string_attr key.sk))
  unfolding key_item
  lookup-key_item key =
      (simp (lookup-insert, text_eq_refl, distinct.0), simp (lookup-insert, text_eq_refl))

  lease_item-IsStored :
      (key : Key) (token : Text) (expires_at : ℤ)
      → IsStored m (lease_of key token expires_at) (lease_item m key token expires_at)
        × (lookup m.sk_attr (lease_item m key token expires_at) ≡ some (string_attr key.sk))
  unfolding lease_item key_item
  lease_item-IsStored key token expires_at = (
    (
      simp (lookup-insert, text_eq_refl, distinct.0, distinct.1, distinct.3),
      simp (lookup-insert, text_eq_refl, distinct.5),
      simp (lookup-insert, text_eq_refl),
    ),
    simp (lookup-insert, text_eq_refl, distinct.2, distinct.4),
  )

  -- The item that Acquire writes holds the lease that it returns.
  pub acquire_item-IsStored :
      (key : Key) (token : Text) (expires_at : ℤ)
      → IsStored m (lease_of key token expires_at) (acquire_item m key token expires_at)
        × (lookup m.sk_attr (acquire_item m key token expires_at) ≡ some (string_attr key.sk))
  unfolding acquire_item
  acquire_item-IsStored key token expires_at =
      let plain = lease_item-IsStored key token expires_at in
      elim (Bool-cases (writes_ttl m)) [
        | inl with_ttl ↦ rw with_ttl (
          (
            rw (lookup-insert, distinct.6) plain.0.0,
            rw (lookup-insert, distinct.8) plain.0.1,
            rw (lookup-insert, distinct.9) plain.0.2,
          ),
          rw (lookup-insert, distinct.7) plain.1,
        )
        | inr bare ↦ rw bare plain
      ]
