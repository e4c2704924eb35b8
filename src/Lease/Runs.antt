-- ===== src/Lease/Runs.antt =====
-- After any calls of pkg/lease/lease.go, whoever makes them and whatever fails among them.
use table_theory.Base.{List, [], ◌∷◌, ◌≡◌, sym, subst}
use table_theory.Lease.Deployment.{Deployment}
use table_theory.Lease.Exclusion.{
  Call, acquire_call, refresh_call, release_call, World, perform, run, IsExclusive, AreStored,
}
use table_theory.Lease.Invariant.{Holds, acquire-Holds, refresh-Holds, release-Holds}

module _ {Store : Type 0} (d : Deployment Store) where
  abbrev pub IsSound : World Store → Type 0
  IsSound w = Holds d w.store w.latest w.granted

  perform-IsSound : (call : Call) (w : World Store) → IsSound w → IsSound (perform d.manager call w)
  unfolding perform
  perform-IsSound (acquire_call key now token duration) w h =
      acquire-Holds d key now token duration w.store w.latest w.granted h
  perform-IsSound (refresh_call lease now duration) w h =
      refresh-Holds d lease now duration w.store w.latest w.granted h
  perform-IsSound (release_call lease) w h = release-Holds d lease w.store w.latest w.granted h

  run-IsSound : (calls : List Call) (w : World Store) → IsSound w → IsSound (run d.manager calls w)
  unfolding run
  run-IsSound [] w h = h
  run-IsSound (call ∷ calls) w h =
      run-IsSound calls (perform d.manager call w) (perform-IsSound call w h)

-- Mutual exclusion. When calls start with no lease returned yet, on a table in any state, then after
-- any acquisitions, refreshes and releases, with clocks that need not agree and failures that may hide
-- a write that took place, no two leases that holders go by are both live on one key.
pub run-IsExclusive :
    {Store : Type 0} (d : Deployment Store) (calls : List Call) (w : World Store)
    → w.granted ≡ []
    → IsExclusive (run d.manager calls w).latest (run d.manager calls w).granted
run-IsExclusive d calls w none_yet =
    (run-IsSound d calls w (subst (Holds d w.store w.latest) (sym none_yet) (tt, tt))).1

-- When calls start with no lease returned yet, then after any acquisitions, refreshes and releases
-- every live lease that a holder goes by is stored: the item at its key has the lease's token and its
-- expiry.
pub run-AreStored :
    {Store : Type 0} (d : Deployment Store) (calls : List Call) (w : World Store)
    → w.granted ≡ []
    → AreStored d
        (run d.manager calls w).store
        (run d.manager calls w).latest
        (run d.manager calls w).granted
run-AreStored d calls w none_yet =
    (run-IsSound d calls w (subst (Holds d w.store w.latest) (sym none_yet) (tt, tt))).0
