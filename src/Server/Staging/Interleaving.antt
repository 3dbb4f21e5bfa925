-- ===== src/Server/Staging/Interleaving.antt =====
-- The uploads of src/server/staging.rs, one atomic step of one of them at a time: `try_acquire` takes
-- the global permit, looks the semaphore of its principal up under the lock of the map, and takes the
-- permit of the principal; a lease gives its fields back one after another. Between any two steps of
-- an upload others may make theirs. `none` is a panic of the coordinator.
pub mod Permits
pub mod Accounts
pub mod Steps
pub mod Spending
pub mod Runs
pub mod Granted
mod Tests
use lfs_cloud.Prelude.{
  ℕ, zero, suc, ◌+◌, Bool, true, false, Option, none, some, [], ◌∷◌, List, if◌then◌else◌, Result,
  ok, err,
}
use lfs_cloud.Prelude.Text.{Text, text_eq}
use lfs_cloud.Server.Staging.Coordinator.{
  UploadStagingError, Reservations, Coordinator, Lease, new, take_global, give_global, look_up_user,
  take_user, give_user, release_reservation, reserve_bytes,
}
use lfs_cloud.Server.Staging.World.{bytes_of, reserves}

-- How far an upload is. A refused one still has the global permit; a dropping one has its fields, and
-- then is without the global permit, and without both permits.
pub data Phase : Type 0 where
  entered looked_up refused leased dropping without_global without_permits : Phase

pub record Upload : Type 0 where
  pub principal : Text
  pub phase : Phase
  pub reservation : Option ℕ

pub record Crowd : Type 0 where
  pub coordinator : Coordinator
  pub uploads : List Upload

-- A new upload takes the global permit, the i-th one makes its next step, or the i-th one declares its
-- size with the free space that it sees.
pub data Event : Type 0 where
  enter : Text → Event
  advance : ℕ → Event
  declare : ℕ → ℕ → ℕ → Event

abbrev kept : Upload → Option (Upload × List Upload) → Option (Upload × List Upload)
kept u none = none
kept u (some (v, rest)) = some (v, u ∷ rest)

-- The i-th upload, and the others.
unfoldable pub pick_upload : ℕ → List Upload → Option (Upload × List Upload)
pick_upload i [] = none
pick_upload zero (u ∷ uploads) = some (u, uploads)
pick_upload (suc i) (u ∷ uploads) = kept u (pick_upload i uploads)

abbrev pub in_phase : Crowd → Coordinator → Upload → Phase → List Upload → Crowd
in_phase w c u phase rest = record { coordinator = c; uploads = record u { phase = phase } ∷ rest }

abbrev pub after_enter : Crowd → Text → Option Coordinator → Crowd
after_enter w principal none = w
after_enter w principal (some c) = record {
  coordinator = c;
  uploads = record { principal = principal; phase = entered; reservation = none } ∷ w.uploads;
}

abbrev pub after_take :
    Crowd → Upload → List Upload → Result UploadStagingError Lease × Coordinator → Crowd
after_take w u rest (ok lease, c) = record {
  coordinator = c;
  uploads =
      record { principal = lease.principal; phase = leased; reservation = lease.reservation }
      ∷ rest;
}
after_take w u rest (err e, c) = in_phase w c u refused rest

abbrev pub after_drop : List Upload → Option Coordinator → Option Crowd
after_drop rest none = none
after_drop rest (some c) = some (record { coordinator = c; uploads = rest })

-- The next step of an upload that is in a phase.
abbrev pub advance_in : Crowd → Upload → List Upload → Phase → Option Crowd
advance_in w u rest entered =
    some (in_phase w (look_up_user w.coordinator u.principal) u looked_up rest)
advance_in w u rest looked_up = some (after_take w u rest (take_user w.coordinator u.principal))
advance_in w u rest refused =
    some (record { coordinator = give_global w.coordinator; uploads = rest })
advance_in w u rest leased = some (in_phase w (give_global w.coordinator) u without_global rest)
advance_in w u rest dropping = some (in_phase w (give_global w.coordinator) u without_global rest)
advance_in w u rest without_global =
    some (in_phase w (give_user w.coordinator u.principal) u without_permits rest)
advance_in w u rest without_permits =
    after_drop rest (release_reservation w.coordinator u.reservation)

abbrev pub advance_picked : Crowd → Option (Upload × List Upload) → Option Crowd
advance_picked w none = some w
advance_picked w (some (u, rest)) = advance_in w u rest u.phase

-- A refused reservation drops the lease.
abbrev pub after_reserve_bytes :
    Crowd → Upload → List Upload → Result UploadStagingError ℕ × Reservations → Crowd
after_reserve_bytes w u rest (ok bytes, r) = record {
  coordinator = record w.coordinator { reservations = r };
  uploads = record u { reservation = some bytes } ∷ rest;
}
after_reserve_bytes w u rest (err e, r) =
    in_phase w (record w.coordinator { reservations = r }) u dropping rest

-- A lease declares its size once; in other phases there is no lease to declare it on.
abbrev pub declare_in : Crowd → Upload → List Upload → ℕ → ℕ → ℕ → Phase → Option ℕ → Crowd
declare_in w u rest min_free size available leased none =
    after_reserve_bytes w u rest (reserve_bytes w.coordinator.reservations size min_free available)
declare_in w u rest min_free size available _ _ = w

abbrev pub declare_picked : Crowd → ℕ → ℕ → ℕ → Option (Upload × List Upload) → Crowd
declare_picked w min_free size available none = w
declare_picked w min_free size available (some (u, rest)) =
    declare_in w u rest min_free size available u.phase u.reservation

unfoldable pub atomic_step : ℕ → Crowd → Event → Option Crowd
atomic_step min_free w (enter principal) =
    some (after_enter w principal (take_global w.coordinator))
atomic_step min_free w (advance i) = advance_picked w (pick_upload i w.uploads)
atomic_step min_free w (declare i size available) =
    some (declare_picked w min_free size available (pick_upload i w.uploads))

abbrev pub and_interleave : (Crowd → Option Crowd) → Option Crowd → Option Crowd
and_interleave f none = none
and_interleave f (some w) = f w

unfoldable pub interleave : ℕ → Crowd → List Event → Option Crowd
interleave min_free w [] = some w
interleave min_free w (e ∷ es) =
    and_interleave (λ w'. interleave min_free w' es) (atomic_step min_free w e)

abbrev pub nobody : ℕ → ℕ → Crowd
nobody global_limit per_user_limit = record {
  coordinator = new global_limit per_user_limit;
  uploads = [];
}

-- What an upload holds in a phase: global permits, `Arc`s and permits of the user semaphore.
abbrev pub global_in : Phase → ℕ
global_in without_global = 0
global_in without_permits = 0
global_in _ = 1

abbrev pub arcs_in : Phase → ℕ
arcs_in looked_up = 1
arcs_in leased = 1
arcs_in dropping = 1
arcs_in without_global = 1
arcs_in _ = 0

abbrev pub permits_in : Phase → ℕ
permits_in leased = 1
permits_in dropping = 1
permits_in without_global = 1
permits_in _ = 0

abbrev pub global_held : Upload → ℕ
global_held u = global_in u.phase

-- What it holds of the semaphore of the principal.
abbrev pub arcs_held : Text → Upload → ℕ
arcs_held p u = if text_eq u.principal p then arcs_in u.phase else 0

abbrev pub permits_held : Text → Upload → ℕ
permits_held p u = if text_eq u.principal p then permits_in u.phase else 0

-- Whether there is a lease, which may have a reservation.
abbrev pub has_lease : Phase → Bool
has_lease entered = false
has_lease looked_up = false
has_lease refused = false
has_lease _ = true

abbrev pub bytes_held : Upload → ℕ
bytes_held u = if has_lease u.phase then bytes_of u.reservation else 0

abbrev pub reservations_held : Upload → ℕ
reservations_held u = if has_lease u.phase then reserves u.reservation else 0

unfoldable pub total : (Upload → ℕ) → List Upload → ℕ
total held [] = 0
total held (u ∷ uploads) = held u + total held uploads
