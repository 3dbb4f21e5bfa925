-- ===== src/Server/Staging/Limits.antt =====
-- What the staging coordinator of src/server/staging.rs promises, whatever uploads call, as long as their
-- calls do not overlap.
use lfs_cloud.Prelude.{ℕ, ◌+◌, ◌≤◌, ◌≡◌, subst, refl, Option, none, some, [], List, length, arith}
use lfs_cloud.Prelude.Text.{Text}
use lfs_cloud.Server.Staging.Coordinator.{Lease, new}
use lfs_cloud.Server.Staging.Slots.{strong_of, strong_of-le}
use lfs_cloud.Server.Staging.World.{World, Event, run, start, count_of, total_bytes, count_reserved}
use lfs_cloud.Server.Staging.Invariant.{IsConsistent}
use lfs_cloud.Server.Staging.Acquiring.{IsConsistent-start}
use lfs_cloud.Server.Staging.Freezing.{snapshot_of, IsFrozen, run-IsFrozen}
use lfs_cloud.Server.Staging.Consistency.{run-IsConsistent}

-- Without a snapshot nothing is reserved. A snapshot is what the declaration that froze it saw, and
-- has room for the bytes of all leases and the headroom.
abbrev pub FitsDisk : (gl pl min_free : ℕ) → List Event → List Lease → Option ℕ → Type 0
FitsDisk gl pl min_free es leases none = total_bytes leases ≡ 0
FitsDisk gl pl min_free es leases (some snapshot) =
    (total_bytes leases + min_free ≤ snapshot) × IsFrozen min_free (start gl pl) es snapshot

-- What every state that uploads can reach keeps to.
pub record WithinLimits (gl pl min_free : ℕ) (es : List Event) (w : World) : Type 0 where
  pub leases_bounded : length w.leases ≤ gl
  pub user_bounded : (p : Text) → count_of p w.leases ≤ pl
  pub disk : FitsDisk gl pl min_free es w.leases (snapshot_of w)

module _ (gl pl min_free : ℕ) where
  fits_disk :
      (es : List Event) (w : World) (o : Option ℕ)
      → run min_free (start gl pl) es ≡ some w
      → snapshot_of w ≡ o
      → IsConsistent gl pl min_free w
      → FitsDisk gl pl min_free es w.leases o
  fits_disk es w none e f h = ground (arith, f, h.reservations.snapshot, h.reservations.reserved)
  fits_disk es w (some s) e f h = (
    ground (arith, f, h.reservations.snapshot, h.reservations.reserved),
    run-IsFrozen gl pl min_free es w s e f,
  )

  limits :
      (es : List Event) (w : World)
      → run min_free (start gl pl) es ≡ some w
      → IsConsistent gl pl min_free w
      → WithinLimits gl pl min_free es w
  limits es w e h = record {
    leases_bounded = omega (arith, h.slots.permits);
    user_bounded = λ p.
        omega
          (arith, strong_of-le pl p w.coordinator.per_user_slots h.slots.balanced, h.slots.held p);
    disk = fits_disk es w (snapshot_of w) e refl h;
  }

  pub reached :
      (es : List Event) (w : World)
      → run min_free (start gl pl) es ≡ some w
      → IsConsistent gl pl min_free w
  reached es w e =
      let (w', f, h) =
        run-IsConsistent gl pl min_free es (start gl pl) (IsConsistent-start gl pl min_free) in
      let same : w' ≡ w = cc in subst (IsConsistent gl pl min_free) same h

  -- From a new coordinator no sequence of acquisitions, size declarations and drops panics; at its
  -- end there are at most the global limit of leases and the user limit of each principal. Without a
  -- snapshot of the free space no bytes are reserved; a snapshot is the free space that some declaration
  -- saw when there was no snapshot, it has been kept at each event since, and the reserved bytes with the
  -- headroom fit it. Each call is made as a whole.
  pub run-WithinLimits :
      (es : List Event)
      → (w : World) × (run min_free (start gl pl) es ≡ some w) × WithinLimits gl pl min_free es w
  run-WithinLimits es =
      let (w, e, h) =
        run-IsConsistent gl pl min_free es (start gl pl) (IsConsistent-start gl pl min_free) in
      (w, e, limits es w e h)

  -- When the last lease is dropped, all permits are back and neither reservation nor snapshot is
  -- left over.
  pub run_drained :
      (es : List Event) (w : World)
      → run min_free (start gl pl) es ≡ some w
      → w.leases ≡ []
      → (w.coordinator.global_slots ≡ gl)
        × ((p : Text) → strong_of p w.coordinator.per_user_slots ≡ 0)
        × (w.coordinator.reservations ≡ (new gl pl).reservations)
  unfolding new count_of total_bytes count_reserved
  run_drained es w e none_left =
      let h = reached es w e in
      (
        ground (arith, h.slots.permits),
        λ p. ground (arith, h.slots.held p),
        ground (arith, h.reservations.reserved, h.reservations.snapshot),
      )
