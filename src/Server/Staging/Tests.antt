-- ===== src/Server/Staging/Tests.antt =====
-- Runs of the staging coordinator, and its theorems at them.
use lfs_cloud.Prelude.{
  ◌≤◌, unwrap_or, arith, Result, ◌≡◌, refl, true, some, none, [], ◌∷◌, List, ok, ◌↔◌, length,
}
use lfs_cloud.Prelude.Text.{Text, codes, text_eq}
use lfs_cloud.Server.Staging.Coordinator.{
  take_global, give_global, look_up_user, upgrade, take_user, downgrade, give_user,
  release_reservation, try_acquire, new, permits_of, with_user, retain_alive, reserve,
  reserve_result, reserve_bytes, drop_lease, release_bytes, give_permit, take_permit,
}
use lfs_cloud.Server.Staging.Slots.{strong_of}
use lfs_cloud.Server.Staging.World.{World, Event, acquire, declare, finish, pick, step, run, start}
use lfs_cloud.Server.Staging.Limits.{WithinLimits, run-WithinLimits, run_drained, reached}
use lfs_cloud.Lfs.Oid.{LfsOid}
use lfs_cloud.Server.Staging.Coordinator.{Coordinator, Lease, UploadStagingError}
use lfs_cloud.Server.Staging.Invariant.{IsConsistent, IsPicked-head}
use lfs_cloud.Server.Staging.Body.{
  Bytes, BodyEvent, chunk, Yields, read_body, read_body_iff, verify_staged, verify_staged_iff,
  upload_staging_preflight_size,
}
use lfs_cloud.Server.Staging.Stage.{
  Environment, available, Guardrails, StagedUpload, stage_upload_request_body_with_lease,
  before_reserve, after_reserve, held, stage-IsConsistent, staged_contents,
}

abbrev alice : Text
alice = codes "github:id:1"

abbrev bob : Text
bob = codes "github:login:bob"

-- Two uploads, of which the second does not fit beside the first.
abbrev busy : List Event
busy = acquire alice ∷ declare 0 100 180 ∷ acquire bob ∷ declare 0 60 180 ∷ acquire alice ∷ []

abbrev busy_end : World
busy_end = record {
  coordinator = record {
    global_slots = 0;
    per_user_limit = 2;
    per_user_slots = record { principal = alice; permits = 0; strong = 2 } ∷ [];
    reservations = record { available_space_snapshot = some 180; reserved_bytes = 100 };
  };
  leases =
      record { principal = alice; reservation = none }
      ∷ record { principal = alice; reservation = some 100 }
      ∷ [];
}

busy-run : run 50 (start 2 2) busy ≡ some busy_end
unfolding run step pick try_acquire take_global give_global look_up_user upgrade take_user downgrade
    give_user release_reservation new permits_of with_user retain_alive text_eq reserve
    reserve_result reserve_bytes drop_lease release_bytes give_permit take_permit
busy-run = refl

abbrev drained : List Event
drained = acquire alice ∷ declare 0 100 180 ∷ finish 0 ∷ []

abbrev drained_end : World
drained_end = record {
  coordinator = record {
    global_slots = 2;
    per_user_limit = 2;
    per_user_slots = record { principal = alice; permits = 2; strong = 0 } ∷ [];
    reservations = record { available_space_snapshot = none; reserved_bytes = 0 };
  };
  leases = [];
}

drained-run : run 50 (start 2 2) drained ≡ some drained_end
unfolding run step pick try_acquire take_global give_global look_up_user upgrade take_user downgrade
    give_user release_reservation new permits_of with_user retain_alive text_eq reserve
    reserve_result reserve_bytes drop_lease release_bytes give_permit take_permit
drained-run = refl

run-WithinLimits_example :
    (w : World) × (run 50 (start 2 2) busy ≡ some w) × WithinLimits 2 2 50 busy w
run-WithinLimits_example = run-WithinLimits 2 2 50 busy

run_drained_example :
    (drained_end.coordinator.global_slots ≡ 2)
    × ((p : Text) → strong_of p drained_end.coordinator.per_user_slots ≡ 0)
    × (drained_end.coordinator.reservations ≡ (new 2 2).reservations)
run_drained_example = run_drained 2 2 50 drained drained_end drained-run refl

abbrev chunks : List BodyEvent
chunks = chunk (7 ∷ []) none ∷ chunk (8 ∷ 9 ∷ []) none ∷ []

abbrev digest : Bytes → Text
digest contents = codes "aa"

abbrev oid : LfsOid
oid = record { hex = codes "aa" }

abbrev sent : Bytes
sent = 7 ∷ 8 ∷ 9 ∷ []

read_body_iff_example :
    (read_body 3 0 [] chunks ≡ ok sent) ↔ (Yields chunks sent × (length sent ≤ 3))
read_body_iff_example = read_body_iff 3 chunks sent (omega arith)

verify_staged_iff_example :
    (verify_staged digest oid (some 3) sent ≡ ok sent)
    ↔ ((sent ≡ sent) × (digest sent ≡ oid.hex) × (unwrap_or (some 3) (length sent) ≡ length sent))
verify_staged_iff_example = verify_staged_iff digest oid (some 3) sent sent

abbrev guardrails : Guardrails
guardrails = record { max_upload_bytes = 10; min_free_bytes = 50 }

abbrev environment : Environment
environment = record {
  temp_file_error = none;
  path = codes "/tmp/lfscloud-upload-1";
  has_parent = true;
  space = available 180;
  reopen_error = none;
  body = chunks;
  flush_error = none;
}

abbrev spare : Lease
spare = record { principal = alice; reservation = none }

abbrev others : List Lease
others = record { principal = alice; reservation = some 100 } ∷ []

stage-IsConsistent_example :
    (x : Result UploadStagingError StagedUpload) × (c : Coordinator)
    × (stage_upload_request_body_with_lease digest environment oid
          (some 3)
          guardrails
          busy_end.coordinator
          spare
        ≡ some (x, c))
    × IsConsistent 2 2 50 (record { coordinator = c; leases = held digest x others })
stage-IsConsistent_example =
    stage-IsConsistent digest 2 2 guardrails environment oid (some 3) busy_end spare others
      (reached 2 2 50 busy busy_end busy-run) (IsPicked-head spare others)

abbrev upload : StagedUpload
upload = record {
  lease = record { principal = alice; reservation = some 3 };
  contents = 7 ∷ 8 ∷ 9 ∷ [];
}

abbrev after_upload : Coordinator
after_upload = record {
  global_slots = 0;
  per_user_limit = 2;
  per_user_slots = record { principal = alice; permits = 0; strong = 2 } ∷ [];
  reservations = record { available_space_snapshot = some 180; reserved_bytes = 103 };
}

staged-upload :
    stage_upload_request_body_with_lease digest environment oid
      (some 3)
      guardrails
      busy_end.coordinator
      spare
    ≡ some (ok upload, after_upload)
unfolding stage_upload_request_body_with_lease before_reserve after_reserve
    upload_staging_preflight_size read_body verify_staged reserve reserve_bytes reserve_result
    release_bytes text_eq
staged-upload = refl

staged_contents_example :
    Yields chunks upload.contents
    × (length upload.contents ≤ 10)
    × (unwrap_or (some 3) (length upload.contents) ≡ length upload.contents)
    × (digest upload.contents ≡ oid.hex)
staged_contents_example =
    staged_contents digest environment oid (some 3) guardrails busy_end.coordinator after_upload
      spare upload (omega arith) staged-upload
