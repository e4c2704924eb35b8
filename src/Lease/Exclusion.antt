-- ===== src/Lease/Exclusion.antt =====
-- Many holders that call one deployment of pkg/lease/lease.go, in any order and with clocks of
-- their own. A holder goes by the lease that its last call returned.
use table_theory.Base.{
  Bool, false, some, List, [], ◌∷◌, ◌&&◌, Text, ◌≡◌, All, Result, ok, err, if◌then◌else◌, text_eq,
  arith,
}
use table_theory.Base.Int.{ℤ, leb_ℤ, ◌<ℤ◌}
use table_theory.Lease.{Key, Lease, Error, Manager}
use table_theory.Lease.Operations.{unix, acquire_key, refresh, release}
use table_theory.Lease.Stored.{IsStored}
use table_theory.Lease.Deployment.{Deployment, item_at, same_key}

-- A call with the clock's reading, and for an acquisition the new token.
pub data Call : Type 0 where
  acquire_call : Key → ℤ → Text → ℤ → Call
  refresh_call : Lease → ℤ → ℤ → Call
  release_call : Lease → Call

-- The table's state, the latest second that a clock has shown at a call, and the leases that calls
-- have returned and that their holders have neither refreshed nor released since.
pub record World (Store : Type 0) : Type 0 where
  pub store : Store
  pub latest : ℤ
  pub granted : List Lease

abbrev pub later : ℤ → ℤ → ℤ
later a b = if leb_ℤ a b then b else a

abbrev pub grant : Result Error Lease → List Lease → List Lease
grant (ok lease) leases = lease ∷ leases
grant (err e) leases = leases

abbrev pub same_lease : Lease → Lease → Bool
same_lease a b = same_key a.key b.key && text_eq a.token b.token

-- A holder that refreshes or releases a lease goes no longer by the old one, whatever the call returns.
unfoldable pub without : Lease → List Lease → List Lease
without lease [] = []
without lease (other ∷ leases) =
    let rest = without lease leases in if same_lease lease other then rest else other ∷ rest

module _ {Store : Type 0} (m : Manager Store) where
  unfoldable pub perform : Call → World Store → World Store
  unfolding acquire_key refresh release without unix
  perform (acquire_call key now token duration) w =
      let out = acquire_key (some m) key now token duration w.store in
      record { store = out.0; latest = later w.latest (unix now); granted = grant out.1 w.granted }
  perform (refresh_call lease now duration) w =
      let out = refresh (some m) lease now duration w.store in
      record {
        store = out.0;
        latest = later w.latest (unix now);
        granted = grant out.1 (without lease w.granted);
      }
  perform (release_call lease) w = record w {
    store = (release (some m) lease w.store).0;
    granted = without lease w.granted;
  }

  unfoldable pub run : List Call → World Store → World Store
  unfolding perform
  run [] w = w
  run (call ∷ calls) w = run calls (perform call w)

-- A lease is live as long as no clock that was read has reached its expiry.
abbrev pub IsLive : ℤ → Lease → Type 0
IsLive latest lease = latest <ℤ lease.expires_at

-- No two live leases are on one key.
abbrev pub IsExclusive : ℤ → List Lease → Type 0
IsExclusive latest [] = Unit
IsExclusive latest (lease ∷ leases) =
    All (λ other. IsLive latest lease → IsLive latest other → same_key lease.key other.key ≡ false)
      leases
    × IsExclusive latest leases

-- Every live lease is stored at its key.
abbrev pub AreStored : {Store : Type 0} → Deployment Store → Store → ℤ → List Lease → Type 0
AreStored d s latest leases =
    All
      (λ lease.
        IsLive latest lease → IsStored d.manager lease (item_at d s lease.key.pk lease.key.sk))
      leases

pub later-left : (a b : ℤ) (lease : Lease) → IsLive (later a b) lease → IsLive a lease
later-left a b lease h = ground (arith, h)

pub later-right : (a b : ℤ) (lease : Lease) → IsLive (later a b) lease → IsLive b lease
later-right a b lease h = ground (arith, h)
