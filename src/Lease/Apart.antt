-- ===== src/Lease/Apart.antt =====
-- Lists of leases that are apart from one another (Lease/Exclusion; pkg/lease/lease.go).
use table_theory.Base.{false, List, [], ◌∷◌, ◌≡◌, inl, inr, All, All-map, Bool-cases}
use table_theory.Base.Int.{ℤ}
use table_theory.Lease.{Lease}
use table_theory.Lease.Deployment.{same_key}
use table_theory.Lease.Exclusion.{same_lease, without, IsLive, IsExclusive}

-- Two leases are not both live on one key.
abbrev pub AreApart : ℤ → Lease → Lease → Type 0
AreApart latest lease other =
    IsLive latest lease → IsLive latest other → same_key lease.key other.key ≡ false

pub IsExclusive-later :
    (latest new : ℤ) (leases : List Lease)
    → ((lease : Lease) → IsLive new lease → IsLive latest lease)
    → IsExclusive latest leases
    → IsExclusive new leases
IsExclusive-later latest new [] h e = tt
IsExclusive-later latest new (lease ∷ leases) h e = (
  All-map _ _ leases (λ other apart a b. apart (h lease a) (h other b)) e.0,
  IsExclusive-later latest new leases h e.1,
)

pub All-without :
    (P : Lease → Type 0) (lease : Lease) (leases : List Lease)
    → All P leases
    → All P (without lease leases)
unfolding without
All-without P lease [] h = tt
All-without P lease (other ∷ leases) h = elim (Bool-cases (same_lease lease other)) [
  | inl same ↦ rw same (All-without P lease leases h.1)
  | inr apart ↦ rw apart (h.0, All-without P lease leases h.1)
]

pub without-apart :
    (lease : Lease) (leases : List Lease)
    → All (λ other. same_lease lease other ≡ false) (without lease leases)
unfolding without
without-apart lease [] = tt
without-apart lease (other ∷ leases) = elim (Bool-cases (same_lease lease other)) [
  | inl same ↦ rw same (without-apart lease leases)
  | inr apart ↦ rw apart (apart, without-apart lease leases)
]

pub IsExclusive-without :
    (latest : ℤ) (lease : Lease) (leases : List Lease)
    → IsExclusive latest leases
    → IsExclusive latest (without lease leases)
unfolding without
IsExclusive-without latest lease [] h = tt
IsExclusive-without latest lease (other ∷ leases) h = elim (Bool-cases (same_lease lease other)) [
  | inl same ↦ rw same (IsExclusive-without latest lease leases h.1)
  | inr apart ↦
      rw apart (All-without _ lease leases h.0, IsExclusive-without latest lease leases h.1)
]

pub All-zip :
    (P Q R : Lease → Type 0) (leases : List Lease)
    → ((x : Lease) → P x → Q x → R x)
    → All P leases
    → All Q leases
    → All R leases
All-zip P Q R [] f hp hq = tt
All-zip P Q R (x ∷ leases) f hp hq = (f x hp.0 hq.0, All-zip P Q R leases f hp.1 hq.1)
