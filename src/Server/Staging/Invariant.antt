-- ===== src/Server/Staging/Invariant.antt =====
-- The invariant of the coordinator of src/server/staging.rs and the leases that uploads hold.
use lfs_cloud.Prelude.{
  ℕ, zero, suc, ◌+◌, ◌≤◌, ◌<◌, ◌≡◌, refl, Option, none, some, [], ◌∷◌, List, length, arith,
}
use lfs_cloud.Prelude.Text.{Text, text_eq}
use lfs_cloud.Server.Staging.Coordinator.{Reservations, Coordinator, Lease}
use lfs_cloud.Server.Staging.Slots.{strong_of, one_if, IsUnique, IsBalanced}
use lfs_cloud.Server.Staging.World.{
  World, pick, count_of, bytes_of, total_bytes, reserves, count_reserved,
}

-- Without a snapshot nothing is reserved. A snapshot is kept only while a lease holds a
-- reservation, and leaves room for all that is reserved and the headroom.
abbrev pub SnapshotOk : ℕ → Option ℕ → ℕ → ℕ → Type 0
SnapshotOk min_free none reserved holders = reserved ≡ 0
SnapshotOk min_free (some snapshot) reserved holders =
    (0 < holders) × (reserved + min_free ≤ snapshot)

pub record ReservationsOk (min_free : ℕ) (r : Reservations) (leases : List Lease) : Type 0 where
  pub reserved : r.reserved_bytes ≡ total_bytes leases
  pub snapshot :
      SnapshotOk min_free r.available_space_snapshot r.reserved_bytes (count_reserved leases)

pub record SlotsOk (global_limit per_user_limit : ℕ) (c : Coordinator) (leases : List Lease)
    : Type 0 where
  pub permits : c.global_slots + length leases ≡ global_limit
  pub limit : c.per_user_limit ≡ per_user_limit
  pub unique : IsUnique c.per_user_slots
  pub balanced : IsBalanced per_user_limit c.per_user_slots
  pub held : (p : Text) → strong_of p c.per_user_slots ≡ count_of p leases

pub record IsConsistent (global_limit per_user_limit min_free : ℕ) (w : World) : Type 0 where
  pub slots : SlotsOk global_limit per_user_limit w.coordinator w.leases
  pub reservations : ReservationsOk min_free w.coordinator.reservations w.leases

-- The lease stands among the leases, and `rest` are the others.
pub record IsPicked (leases : List Lease) (l : Lease) (rest : List Lease) : Type 0 where
  pub lengths : length leases ≡ suc (length rest)
  pub counts : (q : Text) → count_of q leases ≡ one_if (text_eq l.principal q) + count_of q rest
  pub bytes : total_bytes leases ≡ bytes_of l.reservation + total_bytes rest
  pub holders : count_reserved leases ≡ reserves l.reservation + count_reserved rest

pub pick-IsPicked :
    (i : ℕ) (leases rest : List Lease) (l : Lease)
    → pick i leases ≡ some (l, rest)
    → IsPicked leases l rest
unfolding pick count_of total_bytes count_reserved
pick-IsPicked i [] rest l h = cc
pick-IsPicked zero (m ∷ leases) rest l h = record {
  lengths = ground arith;
  counts = λ q. ground arith;
  bytes = ground arith;
  holders = ground arith;
}
pick-IsPicked (suc i) (m ∷ leases) [] l h = absurd (ground arith)
pick-IsPicked (suc i) (m ∷ leases) (r ∷ rest) l h =
    let ih = pick-IsPicked i leases rest l (ground arith) in
    let e : m ≡ r = ground arith in
    record {
      lengths = omega (arith, ih.lengths);
      counts = λ q. rw e (omega (arith, ih.counts q));
      bytes = rw e (omega (arith, ih.bytes));
      holders = rw e (omega (arith, ih.holders));
    }

pub IsPicked-head : (l : Lease) (rest : List Lease) → IsPicked (l ∷ rest) l rest
unfolding pick
IsPicked-head l rest = pick-IsPicked zero (l ∷ rest) rest l refl

pub no_holders : (leases : List Lease) → count_reserved leases ≡ 0 → total_bytes leases ≡ 0
unfolding total_bytes count_reserved
no_holders [] h = refl
no_holders (l ∷ leases) h = ground (arith, no_holders leases)
