-- ===== src/Server/Staging/Reserving.antt =====
-- Reserving disk space for a lease of src/server/staging.rs keeps the invariant.
use lfs_cloud.Prelude.{ℕ, ◌+◌, ◌≡◌, some, ◌∷◌, List, ok, err, arith, Result-cases, inl, inr}
use lfs_cloud.Server.Staging.Coordinator.{
  UploadStagingError, Reservations, Coordinator, Lease, reserve, reserve_result, reserve_bytes,
  release_held,
}
use lfs_cloud.Server.Staging.World.{World, after_declare, count_of, total_bytes, count_reserved}
use lfs_cloud.Server.Staging.Invariant.{SnapshotOk, ReservationsOk, SlotsOk, IsConsistent, IsPicked}
use lfs_cloud.Server.Staging.Releasing.{released, with_reservations, drop_lease-ok}

module _ (gl pl min_free : ℕ) where
  -- What a successful reservation leaves: its bytes are counted, and they fit.
  reserve_bytes-ok :
      (r : Reservations) (size available n : ℕ) (leases : List Lease)
      → ReservationsOk min_free r leases
      → (reserve_bytes r size min_free available).0 ≡ ok n
      → (n ≡ size)
        × ((reserve_bytes r size min_free available).1.reserved_bytes ≡ total_bytes leases + size)
        × SnapshotOk min_free
            (reserve_bytes r size min_free available).1.available_space_snapshot
            (total_bytes leases + size)
            1
  unfolding reserve_bytes
  reserve_bytes-ok r size available n leases h e = ground (arith, h.reserved, h.snapshot)

  -- A refused reservation changes nothing that the invariant speaks of.
  reserve_bytes-err :
      (r : Reservations) (size available : ℕ) (x : UploadStagingError) (leases : List Lease)
      → ReservationsOk min_free r leases
      → (reserve_bytes r size min_free available).0 ≡ err x
      → (reserve_bytes r size min_free available).1 ≡ r
  unfolding reserve_bytes
  reserve_bytes-err r size available x leases h e = ground (arith, h.reserved, h.snapshot)

  -- The lease that holds the new reservation among the others, which hold what they held.
  reassigned :
      (r : Reservations) (l : Lease) (size : ℕ) (leases rest : List Lease)
      → IsPicked leases l rest
      → r.reserved_bytes ≡ total_bytes leases + size
      → SnapshotOk min_free r.available_space_snapshot (total_bytes leases + size) 1
      → (r' : Reservations) × (release_held r l.reservation ≡ some r')
        × ReservationsOk min_free r' (record l { reservation = some size } ∷ rest)
  unfolding total_bytes count_reserved
  reassigned r l size leases rest k reserved snapshot =
      let l' : Lease = record l { reservation = some size } in
      released gl pl min_free r l.reservation (l' ∷ leases) (l' ∷ rest)
        (record { reserved = omega arith; snapshot = ground arith }) (omega (arith, k.bytes))
        (omega (arith, k.holders))

  swapped :
      (c : Coordinator) (l : Lease) (size : ℕ) (leases rest : List Lease)
      → IsPicked leases l rest
      → SlotsOk gl pl c leases
      → SlotsOk gl pl c (record l { reservation = some size } ∷ rest)
  unfolding count_of
  swapped c l size leases rest k s = record {
    permits = omega (arith, s.permits, k.lengths);
    limit = s.limit;
    unique = s.unique;
    balanced = s.balanced;
    held = λ q. omega (arith, s.held q, k.counts q);
  }

  pub reserve-ok :
      (w : World) (l : Lease) (rest : List Lease) (size available : ℕ)
      → IsConsistent gl pl min_free w
      → IsPicked w.leases l rest
      → (w' : World) × (after_declare rest (reserve w.coordinator l size min_free available)
          ≡ some w')
        × IsConsistent gl pl min_free w'
  unfolding reserve reserve_result
  reserve-ok w l rest size available h k =
      let c = w.coordinator in
      let r = (reserve_bytes c.reservations size min_free available).1 in
      elim (Result-cases (reserve_bytes c.reservations size min_free available).0) [
        | inl (n, e) ↦
            let (same, reserved, snapshot) =
              reserve_bytes-ok c.reservations size available n w.leases h.reservations e in
            let (r', f, ok_r) = reassigned r l size w.leases rest k reserved snapshot in
            (
              record {
                coordinator = record c { reservations = r' };
                leases = record l { reservation = some size } ∷ rest;
              },
              rw (e, same, reserve_result, f),
              record {
                slots =
                    swapped _ l size w.leases rest k
                      (with_reservations gl pl min_free c r' w.leases h.slots);
                reservations = ok_r;
              },
            )
        | inr (x, e) ↦
            let same =
              reserve_bytes-err c.reservations size available x w.leases h.reservations e in
            let (c', f, ok_w) = drop_lease-ok gl pl min_free w l rest h k in
            (record { coordinator = c'; leases = rest }, rw (e, same, reserve_result, f), ok_w)
      ]
