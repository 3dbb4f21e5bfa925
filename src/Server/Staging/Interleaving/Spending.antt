-- ===== src/Server/Staging/Interleaving/Spending.antt =====
-- The atomic steps of src/server/staging.rs that reserve and release bytes keep the accounts.
use lfs_cloud.Prelude.{
  ℕ, ◌+◌, ◌-◌, ◌≡◌, refl, subst, Option, none, some, List, Result, ok, err, ◌==◌, if◌then◌else◌,
  arith,
}
use lfs_cloud.Server.Staging.Coordinator.{
  UploadStagingError, Reservations, Coordinator, release_reservation, release_held, release_bytes,
  reserve_bytes,
}
use lfs_cloud.Server.Staging.World.{bytes_of, reserves}
use lfs_cloud.Server.Staging.Interleaving.{
  leased, without_permits, Upload, Crowd, after_reserve_bytes, total, global_held, arcs_held,
  permits_held, bytes_held, reservations_held,
}
use lfs_cloud.Server.Staging.Interleaving.Accounts.{
  IsAccounted, IsAmong, HoldersOk, holders, no_reservations,
}

module _ (gl pl min_free : ℕ) where
  -- Releasing what an upload reserved, with what the others hold.
  released :
      (r : Reservations) (o : Option ℕ) (bytes n : ℕ)
      → r.reserved_bytes ≡ bytes_of o + bytes
      → HoldersOk min_free r (reserves o + n)
      → (n ≡ 0 → bytes ≡ 0)
      → (r' : Reservations) × (release_held r o ≡ some r')
        × (r'.reserved_bytes ≡ bytes)
        × HoldersOk min_free r' n
  unfolding release_bytes
  released r none bytes n e s z =
      (r, refl, omega (arith, e), subst (HoldersOk min_free r) (omega arith) s)
  released r (some m) bytes n e s z =
      let left = r.reserved_bytes - m in
      (
        record {
          available_space_snapshot = if left == 0 then none else r.available_space_snapshot;
          reserved_bytes = left;
        },
        ground (arith, e),
        omega (arith, e),
        ground (arith, e, s, z),
      )

  module _ (w : Crowd) (u : Upload) (rest : List Upload) (h : IsAccounted gl pl min_free w)
      (k : IsAmong w.uploads u rest) where
    reserve_bytes-ok :
        (size available n : ℕ)
        → (reserve_bytes w.coordinator.reservations size min_free available).0 ≡ ok n
        → ((reserve_bytes w.coordinator.reservations size min_free available).1.reserved_bytes
            ≡ total bytes_held w.uploads + n)
          × HoldersOk min_free
              (reserve_bytes w.coordinator.reservations size min_free available).1
              (1 + total reservations_held rest)
    unfolding reserve_bytes
    reserve_bytes-ok size available n e = ground (arith, h.reserved, h.snapshot, e)

    reserve_bytes-err :
        (size available : ℕ) (x : UploadStagingError)
        → (reserve_bytes w.coordinator.reservations size min_free available).0 ≡ err x
        → (reserve_bytes w.coordinator.reservations size min_free available).1
          ≡ w.coordinator.reservations
    unfolding reserve_bytes
    reserve_bytes-err size available x e = ground (arith, h.snapshot, e)

    pub declared-IsAccounted :
        (size available : ℕ) (x : Result UploadStagingError ℕ)
        → u.phase ≡ leased
        → u.reservation ≡ none
        → (reserve_bytes w.coordinator.reservations size min_free available).0 ≡ x
        → IsAccounted gl pl min_free (
            after_reserve_bytes w u rest
              (x, (reserve_bytes w.coordinator.reservations size min_free available).1))
    unfolding total
    declared-IsAccounted size available (ok n) e o f =
        let (reserved, snapshot) = reserve_bytes-ok size available n f in
        record {
          global = ground (arith, h.global, k global_held, e);
          limit = h.limit;
          unique = h.unique;
          arcs = λ q. ground (arith, h.arcs q, k (arcs_held q), e);
          permits = λ q. ground (arith, h.permits q, k (permits_held q), e);
          reserved = ground (arith, reserved, k bytes_held, e, o);
          snapshot = subst (HoldersOk min_free _) (ground (arith, e)) snapshot;
        }
    declared-IsAccounted size available (err x) e o f =
        rw (reserve_bytes-err size available x f) (record {
          global = ground (arith, h.global, k global_held, e);
          limit = h.limit;
          unique = h.unique;
          arcs = λ q. ground (arith, h.arcs q, k (arcs_held q), e);
          permits = λ q. ground (arith, h.permits q, k (permits_held q), e);
          reserved = ground (arith, h.reserved, k bytes_held, e);
          snapshot = holders gl pl min_free w h _ (ground (arith, k reservations_held, e));
        })

    pub released-IsAccounted :
        u.phase ≡ without_permits
        → (c : Coordinator) × (release_reservation w.coordinator u.reservation ≡ some c)
          × IsAccounted gl pl min_free (record { coordinator = c; uploads = rest })
    unfolding release_reservation
    released-IsAccounted e =
        let (r, f, reserved, snapshot) =
          released w.coordinator.reservations u.reservation (total bytes_held rest)
            (total reservations_held rest) (ground (arith, h.reserved, k bytes_held, e))
            (holders gl pl min_free w h _ (ground (arith, k reservations_held, e)))
            (no_reservations rest) in
        (
          record w.coordinator { reservations = r },
          rw f refl,
          record {
            global = ground (arith, h.global, k global_held, e);
            limit = h.limit;
            unique = h.unique;
            arcs = λ q. ground (arith, h.arcs q, k (arcs_held q), e);
            permits = λ q. ground (arith, h.permits q, k (permits_held q), e);
            reserved = reserved;
            snapshot = snapshot;
          },
        )
