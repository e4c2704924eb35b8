-- ===== src/Lease/Invariant.antt =====
-- What each call of pkg/lease/lease.go keeps of the leases that its holders go by.
use table_theory.Base.{
  true, false, some, List, Text, ◌≡◌, refl, sym, ap, inl, inr, All, All-map, Result, ok, err,
  text_eq_iff, Bool-cases, subst, lookup,
}
use table_theory.Base.Int.{ℤ}
use table_theory.Expr.{string_attr}
use table_theory.Lease.{Key, Lease, Error}
use table_theory.Lease.Operations.{unix, acquire_key, refresh, release}
use table_theory.Lease.Stored.{IsStored}
use table_theory.Lease.Deployment.{
  Deployment, item_at, same_key, same_key-item_at, acquire_holds, acquire_holds-live,
}
use table_theory.Lease.Others.{acquire_key-elsewhere, refresh-elsewhere, release-elsewhere}
use table_theory.Lease.Granted.{acquire_key-ok, refresh-ok}
use table_theory.Lease.Exclusion.{
  grant, later, later-left, later-right, same_lease, without, IsLive, IsExclusive, AreStored,
}
use table_theory.Lease.Apart.{
  AreApart, IsExclusive-later, All-without, without-apart, IsExclusive-without, All-zip,
}

module _ {Store : Type 0} (d : Deployment Store) where
  -- The live leases are stored, and no two of them are on one key.
  abbrev pub Holds : Store → ℤ → List Lease → Type 0
  Holds s latest leases = AreStored d s latest leases × IsExclusive latest leases

  -- A returned lease that is stored and apart from the others joins them.
  grant-Holds :
      (s : Store) (latest : ℤ) (r : Result Error Lease) (leases : List Lease)
      → ((lease : Lease)
          → r ≡ ok lease
          → IsStored d.manager lease (item_at d s lease.key.pk lease.key.sk)
            × All (AreApart latest lease) leases)
      → Holds s latest leases
      → Holds s latest (grant r leases)
  grant-Holds s latest (ok lease) leases new h =
      let (stored, apart) = new lease refl in (((λ _. stored), h.0), (apart, h.1))
  grant-Holds s latest (err e) leases new h = h

  -- The live leases stay stored where a call leaves their items alone.
  stay_stored :
      (Q : Lease → Type 0) (s s' : Store) (latest new : ℤ) (leases : List Lease)
      → ((lease : Lease) → IsLive new lease → IsLive latest lease)
      → ((lease : Lease)
          → Q lease
          → IsLive new lease
          → IsStored d.manager lease (item_at d s lease.key.pk lease.key.sk)
          → item_at d s' lease.key.pk lease.key.sk ≡ item_at d s lease.key.pk lease.key.sk)
      → All Q leases
      → AreStored d s latest leases
      → AreStored d s' new leases
  stay_stored Q s s' latest new leases earlier alone q stored =
      All-zip _ _ _ leases
        (λ lease q here live.
          let before = here (earlier lease live) in
          subst (IsStored d.manager lease) (sym (alone lease q live before)) before)
        q stored

  acquired-apart :
      (key : Key) (now : ℤ) (s : Store) (latest : ℤ) (lease other : Lease)
      → lease.key ≡ key
      → acquire_holds d key (unix now) s ≡ true
      → (IsLive latest other → IsStored d.manager other (item_at d s other.key.pk other.key.sk))
      → AreApart (later latest (unix now)) lease other
  acquired-apart key now s latest lease other e held stored live_lease live =
      elim (Bool-cases (same_key lease.key other.key)) [
        | inl same ↦
            let free =
              acquire_holds-live d key (unix now) s other
                (stored (later-left latest (unix now) other live))
                (later-right latest (unix now) other live)
                (subst (λ k. same_key k other.key ≡ true) e same) in
            absurd (cc (held, free))
        | inr apart ↦ apart
      ]

  -- A refreshed lease is apart from those with another token.
  refreshed-apart :
      (lease new other : Lease) (s : Store) (latest now : ℤ)
      → new.key ≡ lease.key
      → lookup d.manager.token_attr (item_at d s lease.key.pk lease.key.sk)
        ≡ some (string_attr lease.token)
      → same_lease lease other ≡ false
      → (IsLive latest other → IsStored d.manager other (item_at d s other.key.pk other.key.sk))
      → AreApart (later latest now) new other
  refreshed-apart lease new other s latest now e owner apart stored live_new live =
      elim (Bool-cases (same_key new.key other.key)) [
        | inl same ↦
            let same' = subst (λ k. same_key k other.key ≡ true) e same in
            let at_key =
              ap (lookup d.manager.token_attr) (same_key-item_at d s lease.key other.key same') in
            let here = stored (later-left latest now other live) in
            let token : lease.token ≡ other.token = cc (owner, at_key, here.1) in
            absurd (cc (apart, same', (text_eq_iff lease.token other.token).1 token))
        | inr other_key ↦ other_key
      ]

  IsStored-at :
      (s : Store) (lease : Lease) (key : Key)
      → lease.key ≡ key
      → IsStored d.manager lease (item_at d s key.pk key.sk)
      → IsStored d.manager lease (item_at d s lease.key.pk lease.key.sk)
  IsStored-at s lease key e h =
      subst (λ k. IsStored d.manager lease (item_at d s k.pk k.sk)) (sym e) h

  pub acquire-Holds :
      (key : Key) (now : ℤ) (token : Text) (duration : ℤ) (s : Store) (latest : ℤ)
      (leases : List Lease)
      → Holds s latest leases
      → let out = acquire_key (some d.manager) key now token duration s in
        Holds out.0 (later latest (unix now)) (grant out.1 leases)
  acquire-Holds key now token duration s latest leases h =
      let out = acquire_key (some d.manager) key now token duration s in
      grant-Holds out.0 (later latest (unix now)) out.1 leases
        (λ lease e.
          let got = acquire_key-ok d key now token duration s e in
          let same = ap (λ l. l.key) got.0 in
          (
            IsStored-at out.0 lease key same got.2,
            All-map _ _ leases
                (λ other stored. acquired-apart key now s latest lease other same got.1 stored) h.0,
          ))
        (
          stay_stored _ s out.0 latest (later latest (unix now)) leases
              (λ lease. later-left latest (unix now) lease)
              (λ other q live stored.
                acquire_key-elsewhere d key now token duration s other stored
                  (later-right latest (unix now) other live))
              h.0 h.0,
          IsExclusive-later latest _ leases (λ lease. later-left latest (unix now) lease) h.1,
        )

  pub refresh-Holds :
      (lease : Lease) (now duration : ℤ) (s : Store) (latest : ℤ) (leases : List Lease)
      → Holds s latest leases
      → let out = refresh (some d.manager) lease now duration s in
        Holds out.0 (later latest (unix now)) (grant out.1 (without lease leases))
  refresh-Holds lease now duration s latest leases h =
      let out = refresh (some d.manager) lease now duration s in
      let stored = All-without _ lease leases h.0 in
      let apart = without-apart lease leases in
      grant-Holds out.0 (later latest (unix now)) out.1 (without lease leases)
        (λ new e.
          let got = refresh-ok d lease now duration s e in
          let same = ap (λ l. l.key) got.0 in
          (
            IsStored-at out.0 new lease.key same got.2,
            All-zip _ _ _ (without lease leases)
                (λ other. refreshed-apart lease new other s latest (unix now) same got.1) apart
                stored,
          ))
        (
          stay_stored _ s out.0 latest (later latest (unix now)) (without lease leases)
              (λ lease. later-left latest (unix now) lease)
              (λ other q live here. refresh-elsewhere d lease now duration s other here q) apart
              stored,
          IsExclusive-later latest _ (without lease leases)
              (λ lease. later-left latest (unix now) lease)
              (IsExclusive-without latest lease leases h.1),
        )

  pub release-Holds :
      (lease : Lease) (s : Store) (latest : ℤ) (leases : List Lease)
      → Holds s latest leases
      → Holds (release (some d.manager) lease s).0 latest (without lease leases)
  release-Holds lease s latest leases h = (
    stay_stored _ s _ latest latest (without lease leases) (λ lease live. live)
        (λ other q live here. release-elsewhere d lease s other here q) (without-apart lease leases)
        (All-without _ lease leases h.0),
    IsExclusive-without latest lease leases h.1,
  )
