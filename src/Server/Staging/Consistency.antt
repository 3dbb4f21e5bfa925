-- ===== src/Server/Staging/Consistency.antt =====
-- Every event of the staging coordinator keeps the invariant.
use lfs_cloud.Prelude.{ℕ, ◌≡◌, refl, some, [], ◌∷◌, List, Option-cases, inl, inr}
use lfs_cloud.Server.Staging.World.{
  World, Event, acquire, declare, finish, pick, step_acquire, step, run,
}
use lfs_cloud.Server.Staging.Invariant.{IsConsistent, pick-IsPicked}
use lfs_cloud.Server.Staging.Releasing.{drop_lease-ok}
use lfs_cloud.Server.Staging.Acquiring.{step_acquire-IsConsistent}
use lfs_cloud.Server.Staging.Reserving.{reserve-ok}

module _ (gl pl min_free : ℕ) where
  -- One event neither panics nor breaks the invariant.
  pub step-IsConsistent :
      (w : World) (e : Event)
      → IsConsistent gl pl min_free w
      → (w' : World) × (step min_free w e ≡ some w') × IsConsistent gl pl min_free w'
  unfolding step
  step-IsConsistent w (acquire p) h =
      (step_acquire w p, refl, step_acquire-IsConsistent gl pl min_free w p h)
  step-IsConsistent w (declare i size available) h = elim (Option-cases (pick i w.leases)) [
    | inl e ↦ (w, rw e, h)
    | inr ((l, rest), e) ↦
        let (w', f, ok_w) =
          reserve-ok gl pl min_free w l rest size available h (pick-IsPicked i w.leases rest l e) in
        (w', rw e f, ok_w)
  ]
  step-IsConsistent w (finish i) h = elim (Option-cases (pick i w.leases)) [
    | inl e ↦ (w, rw e, h)
    | inr ((l, rest), e) ↦
        let (c, f, ok_w) =
          drop_lease-ok gl pl min_free w l rest h (pick-IsPicked i w.leases rest l e) in
        (record { coordinator = c; leases = rest }, rw (e, f), ok_w)
  ]

  pub run-IsConsistent :
      (es : List Event) (w : World)
      → IsConsistent gl pl min_free w
      → (w' : World) × (run min_free w es ≡ some w') × IsConsistent gl pl min_free w'
  unfolding run
  run-IsConsistent [] w h = (w, refl, h)
  run-IsConsistent (e ∷ es) w h =
      let (w', f, ok_w) = step-IsConsistent w e h in
      let (w'', g, ok_end) = run-IsConsistent es w' ok_w in (w'', rw f g, ok_end)
