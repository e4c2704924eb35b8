-- ===== src/Lease/Examples.antt =====
-- Holders that call the sample deployment, and the theorems about leases at their calls.
use table_theory.Base.{arith, ℕ, none, some, List, [], ◌∷◌, codes, ◌≡◌, ◌*◌, refl, inl, ok}
use table_theory.Base.Int.{ℤ, pos, ◌+ℤ◌}
use table_theory.Expr.Convert.{format_int}
use table_theory.Lease.{Key, Lease, second}
use table_theory.Lease.Operations.{
  unix, lease_of, acquire_key, release, acquire_refusal, release_refusal, acquire_input,
  release_input,
}
use table_theory.Lease.Stored.{IsStored}
use table_theory.Lease.Deployment.{item_at}
use table_theory.Lease.Exclusion.{
  Call, acquire_call, refresh_call, World, run, IsExclusive, AreStored,
}
use table_theory.Lease.Runs.{run-IsExclusive, run-AreStored}
use table_theory.Lease.Progress.{acquire_key-free, release-stored}
use table_theory.Lease.SampleTable.{laws-read, deployment, manager, api}
use table_theory.Lease.Sample.{read, Table}

abbrev key : Key
key = record { pk = codes "page"; sk = codes "LOCK" }

abbrev at_second : ℕ → ℤ
at_second n = pos (n * second)

-- The first holder acquires, the second is refused and acquires after the expiry.
abbrev calls : List Call
calls =
    acquire_call key (at_second 100) (codes "a") (at_second 30)
    ∷ acquire_call key (at_second 110) (codes "b") (at_second 30)
    ∷ refresh_call (lease_of key (codes "a") (pos 130)) (at_second 120) (at_second 30)
    ∷ acquire_call key (at_second 150) (codes "b") (at_second 30)
    ∷ []

abbrev start : World Table
start = record { store = []; latest = pos 0; granted = [] }

calls_grant :
    (run manager calls start).granted
    ≡ lease_of key (codes "b") (pos 180) ∷ lease_of key (codes "a") (pos 150) ∷ []
unfolding run api format_int
calls_grant = refl

run-IsExclusive_example :
    IsExclusive (run manager calls start).latest (run manager calls start).granted
run-IsExclusive_example = run-IsExclusive deployment calls start refl

run-AreStored_example :
    AreStored deployment
      (run manager calls start).store
      (run manager calls start).latest
      (run manager calls start).granted
run-AreStored_example = run-AreStored deployment calls start refl

passes : acquire_refusal manager key (at_second 30) ≡ none
unfolding acquire_refusal
passes = refl

absent : item_at deployment [] key.pk key.sk ≡ []
unfolding read
absent = laws-read [] _ key.pk key.sk

acquire_key-free_example :
    (acquire_key (some manager) key (at_second 100) (codes "a") (at_second 30) []).1
    ≡ ok (lease_of key (codes "a") (unix (at_second 100 +ℤ at_second 30)))
unfolding api acquire_input
acquire_key-free_example =
    acquire_key-free deployment key (at_second 100) (codes "a") (at_second 30) [] passes
      (inl absent) tt

-- The first holder's lease after its acquisition
abbrev held : World Table
held = run manager (acquire_call key (at_second 100) (codes "a") (at_second 30) ∷ []) start

abbrev first : Lease
first = lease_of key (codes "a") (pos 130)

held_grants : held.granted ≡ first ∷ []
unfolding run api format_int
held_grants = refl

first-IsStored : IsStored manager first (item_at deployment held.store key.pk key.sk)
unfolding run api
first-IsStored =
    (run-AreStored deployment (acquire_call key (at_second 100) (codes "a") (at_second 30) ∷ [])
        start refl).0
      (omega arith)

release_passes : release_refusal manager first ≡ none
unfolding release_refusal
release_passes = refl

release-stored_example :
    ((release (some manager) first held.store).1 ≡ ok tt)
    × (item_at deployment (release (some manager) first held.store).0 key.pk key.sk ≡ [])
unfolding api run release_input
release-stored_example = release-stored deployment first held.store release_passes first-IsStored tt
