-- ===== src/Server/Staging/World.antt =====
-- The staging coordinator of src/server/staging.rs together with the uploads that hold its leases. Each
-- call of the coordinator is one event here, made as a whole. `none` is a panic of the coordinator.
use lfs_cloud.Prelude.{
  ℕ, zero, suc, ◌+◌, Option, none, some, [], ◌∷◌, List, if◌then◌else◌, Result, ok, err,
}
use lfs_cloud.Prelude.Text.{Text, text_eq}
use lfs_cloud.Server.Staging.Coordinator.{
  UploadStagingError, Coordinator, Lease, new, try_acquire, reserve, drop_lease,
}

pub record World : Type 0 where
  pub coordinator : Coordinator
  pub leases : List Lease

-- What an upload does: it asks for a lease, declares its size on the i-th lease with the free
-- space that it sees, or ends and drops the i-th lease.
pub data Event : Type 0 where
  acquire : Text → Event
  declare : ℕ → ℕ → ℕ → Event
  finish : ℕ → Event

-- The i-th lease, and the others.
abbrev pub kept : Lease → Option (Lease × List Lease) → Option (Lease × List Lease)
kept l none = none
kept l (some (m, rest)) = some (m, l ∷ rest)

unfoldable pub pick : ℕ → List Lease → Option (Lease × List Lease)
pick i [] = none
pick zero (l ∷ leases) = some (l, leases)
pick (suc i) (l ∷ leases) = kept l (pick i leases)

abbrev pub granted : List Lease → Result UploadStagingError Lease → List Lease
granted leases (ok l) = l ∷ leases
granted leases (err e) = leases

abbrev pub after_declare :
    List Lease → Option (Result UploadStagingError Lease × Coordinator) → Option World
after_declare leases none = none
after_declare leases (some (r, c)) = some (record { coordinator = c; leases = granted leases r })

abbrev pub after_finish : List Lease → Option Coordinator → Option World
after_finish leases none = none
after_finish leases (some c) = some (record { coordinator = c; leases = leases })

abbrev pub declare_picked : World → ℕ → ℕ → ℕ → Option (Lease × List Lease) → Option World
declare_picked w min_free size available none = some w
declare_picked w min_free size available (some (l, rest)) =
    after_declare rest (reserve w.coordinator l size min_free available)

abbrev pub finish_picked : World → Option (Lease × List Lease) → Option World
finish_picked w none = some w
finish_picked w (some (l, rest)) = after_finish rest (drop_lease w.coordinator l)

abbrev pub step_acquire : World → Text → World
step_acquire w principal =
    let (r, c) = try_acquire w.coordinator principal in
    record { coordinator = c; leases = granted w.leases r }

-- An index that names no lease changes nothing.
unfoldable pub step : ℕ → World → Event → Option World
step min_free w (acquire principal) = some (step_acquire w principal)
step min_free w (declare i size available) =
    declare_picked w min_free size available (pick i w.leases)
step min_free w (finish i) = finish_picked w (pick i w.leases)

abbrev pub and_run : (World → Option World) → Option World → Option World
and_run f none = none
and_run f (some w) = f w

unfoldable pub run : ℕ → World → List Event → Option World
run min_free w [] = some w
run min_free w (e ∷ es) = and_run (λ w'. run min_free w' es) (step min_free w e)

abbrev pub start : ℕ → ℕ → World
start global_limit per_user_limit = record {
  coordinator = new global_limit per_user_limit;
  leases = [];
}

-- How many of the leases are the principal's.
unfoldable pub count_of : Text → List Lease → ℕ
count_of p [] = 0
count_of p (l ∷ leases) = (if text_eq l.principal p then 1 else 0) + count_of p leases

abbrev pub bytes_of : Option ℕ → ℕ
bytes_of none = 0
bytes_of (some n) = n

unfoldable pub total_bytes : List Lease → ℕ
total_bytes [] = 0
total_bytes (l ∷ leases) = bytes_of l.reservation + total_bytes leases

abbrev pub reserves : Option ℕ → ℕ
reserves none = 0
reserves (some n) = 1

-- How many of the leases hold a reservation.
unfoldable pub count_reserved : List Lease → ℕ
count_reserved [] = 0
count_reserved (l ∷ leases) = reserves l.reservation + count_reserved leases
