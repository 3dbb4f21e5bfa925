-- ===== src/Server/Staging/Interleaving/Accounts.antt =====
-- The invariant of interleaved uploads of src/server/staging.rs: each permit and each byte is in the
-- coordinator or with an upload, in whatever phase it is.
use lfs_cloud.Prelude.{ℕ, zero, suc, ◌+◌, ◌≤◌, ◌≡◌, refl, subst, some, [], ◌∷◌, List, arith}
use lfs_cloud.Prelude.Text.{Text}
use lfs_cloud.Server.Staging.Coordinator.{Reservations, new}
use lfs_cloud.Server.Staging.Slots.{strong_of, IsUnique}
use lfs_cloud.Server.Staging.Invariant.{SnapshotOk}
use lfs_cloud.Server.Staging.Interleaving.{
  Phase, entered, looked_up, refused, leased, dropping, without_global, without_permits, Upload,
  Crowd, pick_upload, total, global_held, arcs_in, permits_in, arcs_held, permits_held, bytes_held,
  reservations_held, nobody,
}
use lfs_cloud.Server.Staging.Interleaving.Permits.{free_of}

pub record IsAccounted (gl pl min_free : ℕ) (w : Crowd) : Type 0 where
  pub global : w.coordinator.global_slots + total global_held w.uploads ≡ gl
  pub limit : w.coordinator.per_user_limit ≡ pl
  pub unique : IsUnique w.coordinator.per_user_slots
  pub arcs : (p : Text) → strong_of p w.coordinator.per_user_slots ≡ total (arcs_held p) w.uploads
  pub permits :
      (p : Text) → free_of pl p w.coordinator.per_user_slots + total (permits_held p) w.uploads ≡ pl
  pub reserved : w.coordinator.reservations.reserved_bytes ≡ total bytes_held w.uploads
  pub snapshot :
      SnapshotOk min_free w.coordinator.reservations.available_space_snapshot
        w.coordinator.reservations.reserved_bytes
        (total reservations_held w.uploads)

pub IsAccounted-nobody : (gl pl min_free : ℕ) → IsAccounted gl pl min_free (nobody gl pl)
unfolding new total strong_of free_of
IsAccounted-nobody gl pl min_free = record {
  global = omega arith;
  limit = refl;
  unique = tt;
  arcs = λ p. refl;
  permits = λ p. omega arith;
  reserved = refl;
  snapshot = refl;
}

-- What all uploads hold is what the i-th one holds and what the others hold.
pub total-pick_upload :
    (held : Upload → ℕ) (i : ℕ) (uploads rest : List Upload) (u : Upload)
    → pick_upload i uploads ≡ some (u, rest)
    → total held uploads ≡ held u + total held rest
unfolding pick_upload total
total-pick_upload held i [] rest u h = cc
total-pick_upload held zero (v ∷ uploads) rest u h = ground (arith, h)
total-pick_upload held (suc i) (v ∷ uploads) [] u h = absurd (ground (arith, h))
total-pick_upload held (suc i) (v ∷ uploads) (r ∷ rest) u h =
    let ih = total-pick_upload held i uploads rest u (ground arith) in
    let e : v ≡ r = ground arith in rw e (omega (arith, ih))

permits_in-le : (phase : Phase) → permits_in phase ≤ arcs_in phase
permits_in-le entered = omega arith
permits_in-le looked_up = omega arith
permits_in-le refused = omega arith
permits_in-le leased = omega arith
permits_in-le dropping = omega arith
permits_in-le without_global = omega arith
permits_in-le without_permits = omega arith

-- Who holds a permit holds an `Arc` of its semaphore.
pub permits_le_arcs :
    (p : Text) (uploads : List Upload)
    → total (permits_held p) uploads ≤ total (arcs_held p) uploads
unfolding total
permits_le_arcs p [] = omega arith
permits_le_arcs p (u ∷ uploads) = ground (arith, permits_le_arcs p uploads, permits_in-le u.phase)

-- Bytes are held by reservations.
pub no_reservations :
    (uploads : List Upload) → total reservations_held uploads ≡ 0 → total bytes_held uploads ≡ 0
unfolding total
no_reservations [] h = refl
no_reservations (u ∷ uploads) h = ground (arith, no_reservations uploads)

-- The upload stands among those of the crowd, and `rest` are the others.
abbrev pub IsAmong : List Upload → Upload → List Upload → Type 0
IsAmong uploads u rest = (held : Upload → ℕ) → total held uploads ≡ held u + total held rest

abbrev pub HoldersOk : ℕ → Reservations → ℕ → Type 0
HoldersOk min_free r = SnapshotOk min_free r.available_space_snapshot r.reserved_bytes

pub holders :
    (gl pl min_free : ℕ) (w : Crowd)
    → IsAccounted gl pl min_free w
    → (n : ℕ) → total reservations_held w.uploads ≡ n
    → HoldersOk min_free w.coordinator.reservations n
holders gl pl min_free w h n e = subst (HoldersOk min_free w.coordinator.reservations) e h.snapshot
