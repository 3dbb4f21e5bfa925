-- ===== src/Server/Staging/Releasing.antt =====
-- Dropping a lease of src/server/staging.rs never panics and keeps the invariant.
use lfs_cloud.Prelude.{
  ℕ, ◌+◌, ◌-◌, ◌<◌, ◌≡◌, refl, Option, none, some, List, ◌==◌, if◌then◌else◌, arith,
}
use lfs_cloud.Prelude.Text.{text_eq_refl}
use lfs_cloud.Server.Staging.Coordinator.{
  Reservations, Coordinator, Lease, release_bytes, drop_lease, release_reservation, give_user,
  give_global, release_held, give_permit,
}
use lfs_cloud.Server.Staging.Slots.{strong_of}
use lfs_cloud.Server.Staging.Slots.Moves.{
  give_permit-IsUnique, give_permit-IsBalanced, strong_of-give_permit,
}
use lfs_cloud.Server.Staging.World.{World, bytes_of, total_bytes, reserves, count_reserved}
use lfs_cloud.Server.Staging.Invariant.{ReservationsOk, SlotsOk, IsConsistent, IsPicked, no_holders}

module _ (gl pl min_free : ℕ) where
  holds :
      (c : Coordinator) (l : Lease) (leases rest : List Lease)
      → SlotsOk gl pl c leases
      → IsPicked leases l rest
      → 0 < strong_of l.principal c.per_user_slots
  holds c l leases rest s k =
      ground (arith, s.held l.principal, k.counts l.principal, text_eq_refl l.principal)

  given :
      (c : Coordinator) (l : Lease) (leases rest : List Lease)
      → SlotsOk gl pl c leases
      → IsPicked leases l rest
      → SlotsOk gl pl
          (record c {
            global_slots = c.global_slots + 1;
            per_user_slots = give_permit l.principal c.per_user_slots;
          })
          rest
  given c l leases rest s k =
      let h = holds c l leases rest s k in
      record {
        permits = omega (arith, s.permits, k.lengths);
        limit = s.limit;
        unique = give_permit-IsUnique l.principal c.per_user_slots s.unique;
        balanced = give_permit-IsBalanced pl l.principal c.per_user_slots h s.balanced;
        held = λ q.
            omega
              (arith, strong_of-give_permit l.principal q c.per_user_slots h, s.held q, k.counts q);
      }

  pub released :
      (r : Reservations) (o : Option ℕ) (leases rest : List Lease)
      → ReservationsOk min_free r leases
      → total_bytes leases ≡ bytes_of o + total_bytes rest
      → count_reserved leases ≡ reserves o + count_reserved rest
      → (r' : Reservations) × (release_held r o ≡ some r') × ReservationsOk min_free r' rest
  unfolding release_bytes
  released r none leases rest h bytes holders = (
    r,
    refl,
    record { reserved = omega (arith, h.reserved); snapshot = ground (arith, h.snapshot) },
  )
  released r (some n) leases rest h bytes holders =
      let left = r.reserved_bytes - n in
      (
        record {
          available_space_snapshot = if left == 0 then none else r.available_space_snapshot;
          reserved_bytes = left;
        },
        ground (arith, h.reserved),
        record {
          reserved = omega (arith, h.reserved);
          snapshot = ground (arith, h.snapshot, h.reserved, no_holders rest);
        },
      )

  release_held-ok :
      (r : Reservations) (l : Lease) (leases rest : List Lease)
      → ReservationsOk min_free r leases
      → IsPicked leases l rest
      → (r' : Reservations) × (release_held r l.reservation ≡ some r')
        × ReservationsOk min_free r' rest
  release_held-ok r l leases rest h k = released r l.reservation leases rest h k.bytes k.holders

  pub with_reservations :
      (c : Coordinator) (r : Reservations) (leases : List Lease)
      → SlotsOk gl pl c leases
      → SlotsOk gl pl (record c { reservations = r }) leases
  with_reservations c r leases s = record {
    permits = s.permits;
    limit = s.limit;
    unique = s.unique;
    balanced = s.balanced;
    held = s.held;
  }

  pub drop_lease-ok :
      (w : World) (l : Lease) (rest : List Lease)
      → IsConsistent gl pl min_free w
      → IsPicked w.leases l rest
      → (c : Coordinator) × (drop_lease w.coordinator l ≡ some c)
        × IsConsistent gl pl min_free (record { coordinator = c; leases = rest })
  unfolding drop_lease release_reservation give_user give_global
  drop_lease-ok w l rest h k =
      let c = w.coordinator in
      let (r, e, ok_r) = release_held-ok c.reservations l w.leases rest h.reservations k in
      (
        record c {
          global_slots = c.global_slots + 1;
          per_user_slots = give_permit l.principal c.per_user_slots;
          reservations = r;
        },
        rw e,
        record {
          slots = with_reservations _ r rest (given c l w.leases rest h.slots k);
          reservations = ok_r;
        },
      )
