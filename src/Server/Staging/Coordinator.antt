-- ===== src/Server/Staging/Coordinator.antt =====
-- `UploadStagingCoordinator` of src/server/staging.rs with the leases that its callers hold.
-- A `Weak<Semaphore>` of the user map is alive while an `Arc` of it is; `strong` counts those, which
-- permits hold, and attempts that have looked the semaphore up.
use lfs_cloud.Prelude.{
  ℕ, ◌+◌, ◌-◌, ◌≡◌, refl, Option, none, some, [], ◌∷◌, List, ◌==◌, ltb, leb, if◌then◌else◌, Result,
  ok, err,
}
use lfs_cloud.Prelude.Text.{Text, text_eq, codes}
use lfs_cloud.Prelude.Decimal.{u64_bound}
use lfs_cloud.Errors.{StorageError}

-- `UploadStagingError`
pub data UploadStagingError : Type 0 where
  payload_too_large : UploadStagingError
  concurrency_limit : UploadStagingError
  -- required and available space
  insufficient_temp_space : Option ℕ → Option ℕ → UploadStagingError
  timed_out : UploadStagingError
  storage : StorageError → UploadStagingError

pub record Semaphore : Type 0 where
  pub principal : Text
  pub permits : ℕ
  pub strong : ℕ

-- `UploadStagingReservationState`
pub record Reservations : Type 0 where
  pub available_space_snapshot : Option ℕ
  pub reserved_bytes : ℕ

pub record Coordinator : Type 0 where
  pub global_slots : ℕ
  pub per_user_limit : ℕ
  pub per_user_slots : List Semaphore
  pub reservations : Reservations

-- `UploadStagingLease`, with the bytes of its `UploadStagingDiskReservation`
pub record Lease : Type 0 where
  pub principal : Text
  pub reservation : Option ℕ

unfoldable pub new : ℕ → ℕ → Coordinator
new global_limit per_user_limit = record {
  global_slots = global_limit;
  per_user_limit = per_user_limit;
  per_user_slots = [];
  reservations = record { available_space_snapshot = none; reserved_bytes = 0 };
}

-- `slots.retain(|_, semaphore| semaphore.strong_count() > 0)`
unfoldable pub retain_alive : List Semaphore → List Semaphore
retain_alive [] = []
retain_alive (s ∷ slots) =
    let rest = retain_alive slots in if ltb 0 s.strong then s ∷ rest else rest

-- The semaphore of the principal, put into the map if there is none.
unfoldable pub with_user : ℕ → Text → List Semaphore → List Semaphore
with_user limit principal [] = record { principal = principal; permits = limit; strong = 0 } ∷ []
with_user limit principal (s ∷ slots) =
    if text_eq s.principal principal then s ∷ slots else s ∷ with_user limit principal slots

unfoldable pub permits_of : Text → List Semaphore → ℕ
permits_of principal [] = 0
permits_of principal (s ∷ slots) =
    if text_eq s.principal principal then s.permits else permits_of principal slots

-- `Weak::upgrade` of the entry of the principal, or the `Arc` that was just put into the map.
unfoldable pub upgrade : Text → List Semaphore → List Semaphore
upgrade principal [] = []
upgrade principal (s ∷ slots) =
    if text_eq s.principal principal
    then record s { strong = s.strong + 1 } ∷ slots
    else s ∷ upgrade principal slots

-- The `Arc` goes out of scope.
unfoldable pub downgrade : Text → List Semaphore → List Semaphore
downgrade principal [] = []
downgrade principal (s ∷ slots) =
    if text_eq s.principal principal
    then record s { strong = s.strong - 1 } ∷ slots
    else s ∷ downgrade principal slots

-- The permit keeps the `Arc` that it was taken through.
unfoldable pub take_permit : Text → List Semaphore → List Semaphore
take_permit principal [] = []
take_permit principal (s ∷ slots) =
    if text_eq s.principal principal
    then record s { permits = s.permits - 1 } ∷ slots
    else s ∷ take_permit principal slots

unfoldable pub give_permit : Text → List Semaphore → List Semaphore
give_permit principal [] = []
give_permit principal (s ∷ slots) =
    if text_eq s.principal principal
    then record s { permits = s.permits + 1; strong = s.strong - 1 } ∷ slots
    else s ∷ give_permit principal slots

-- The first part of `try_acquire`: the global permit.
unfoldable pub take_global : Coordinator → Option Coordinator
take_global c =
    if c.global_slots == 0 then none else some (record c { global_slots = c.global_slots - 1 })

unfoldable pub give_global : Coordinator → Coordinator
give_global c = record c { global_slots = c.global_slots + 1 }

-- The second part, under the lock of the map: the semaphore of the principal.
unfoldable pub look_up_user : Coordinator → Text → Coordinator
look_up_user c principal = record c {
  per_user_slots =
      upgrade principal (with_user c.per_user_limit principal (retain_alive c.per_user_slots));
}

-- The third part: the permit of the principal. If it is refused, its `Arc` goes out of scope. The entry
-- of the principal is still in the map, since the attempt has an `Arc` of it.
unfoldable pub take_user : Coordinator → Text → Result UploadStagingError Lease × Coordinator
take_user c principal =
    if permits_of principal c.per_user_slots == 0
    then (err concurrency_limit, record c { per_user_slots = downgrade principal c.per_user_slots })
    else (
      ok (record { principal = principal; reservation = none }),
      record c { per_user_slots = take_permit principal c.per_user_slots },
    )

unfoldable pub give_user : Coordinator → Text → Coordinator
give_user c principal = record c { per_user_slots = give_permit principal c.per_user_slots }

-- The global permit goes back when the permit of the principal is refused, since it is dropped.
abbrev pub after_user :
    Result UploadStagingError Lease × Coordinator → Result UploadStagingError Lease × Coordinator
after_user (ok lease, c) = (ok lease, c)
after_user (err e, c) = (err e, give_global c)

abbrev pub after_global :
    Coordinator → Text → Option Coordinator → Result UploadStagingError Lease × Coordinator
after_global c principal none = (err concurrency_limit, c)
after_global c principal (some c') = after_user (take_user (look_up_user c' principal) principal)

-- The three parts in a row. Staging/Interleaving lets other uploads in between them.
unfoldable pub try_acquire : Coordinator → Text → Result UploadStagingError Lease × Coordinator
try_acquire c principal = after_global c principal (take_global c)

abbrev pub get_or_insert : Option ℕ → ℕ → ℕ
get_or_insert none fresh = fresh
get_or_insert (some old) fresh = old

-- What the reservation state becomes, with or without the reservation: the snapshot is kept.
unfoldable pub reserve_bytes : Reservations → ℕ → ℕ → ℕ → Result UploadStagingError ℕ × Reservations
reserve_bytes r expected_size min_free available =
    let request_required = expected_size + min_free in
    let snapshot = get_or_insert r.available_space_snapshot available in
    let aggregate_required = r.reserved_bytes + expected_size + min_free in
    let frozen = record r { available_space_snapshot = some snapshot } in
    if leb u64_bound request_required
    then (err (insufficient_temp_space none (some available)), r)
    else if ltb available request_required
    then (err (insufficient_temp_space (some request_required) (some available)), r)
    else if leb u64_bound aggregate_required
    then (err (insufficient_temp_space none (some snapshot)), frozen)
    else if ltb snapshot aggregate_required
    then (err (insufficient_temp_space (some aggregate_required) (some snapshot)), frozen)
    else (ok expected_size, record frozen { reserved_bytes = r.reserved_bytes + expected_size })

-- `Drop` of a reservation. `none` is the panic of `expect`, if more is released than reserved.
unfoldable pub release_bytes : Reservations → ℕ → Option Reservations
release_bytes r bytes =
    let left = r.reserved_bytes - bytes in
    let snapshot = if left == 0 then none else r.available_space_snapshot in
    if ltb r.reserved_bytes bytes
    then none
    else some (record { available_space_snapshot = snapshot; reserved_bytes = left })

abbrev pub release_held : Reservations → Option ℕ → Option Reservations
release_held r none = some r
release_held r (some bytes) = release_bytes r bytes

abbrev pub after_release : Coordinator → Option Reservations → Option Coordinator
after_release c none = none
after_release c (some r) = some (record c { reservations = r })

unfoldable pub release_reservation : Coordinator → Option ℕ → Option Coordinator
release_reservation c reservation = after_release c (release_held c.reservations reservation)

-- `Drop` of a lease drops its fields in their order: the global permit, the permit of the principal,
-- the reservation. Here they are dropped in a row; Staging/Interleaving lets other uploads in between.
unfoldable pub drop_lease : Coordinator → Lease → Option Coordinator
drop_lease c lease =
    release_reservation (give_user (give_global c) lease.principal) lease.reservation

-- `UploadStagingLease::reserve`, once the free space is known. A reservation that the lease held
-- is dropped by the assignment; a refused lease is dropped, since the method takes it by value.
abbrev pub assign_reservation :
    Coordinator
    → Lease
    → ℕ
    → Option Reservations
    → Option (Result UploadStagingError Lease × Coordinator)
assign_reservation c lease bytes none = none
assign_reservation c lease bytes (some r) =
    some (ok (record lease { reservation = some bytes }), record c { reservations = r })

unfoldable pub reserve_result :
    Coordinator
    → Lease
    → Result UploadStagingError ℕ
    → Reservations
    → Option (Result UploadStagingError Lease × Coordinator)
reserve_result c lease (ok bytes) r =
    assign_reservation c lease bytes (release_held r lease.reservation)
reserve_result c lease (err e) r = elim (drop_lease (record c { reservations = r }) lease) [
  | none ↦ none
  | some dropped ↦ some (err e, dropped)
]

unfoldable pub reserve :
    Coordinator → Lease → ℕ → ℕ → ℕ → Option (Result UploadStagingError Lease × Coordinator)
reserve c lease expected_size min_free available =
    let (result, r) = reserve_bytes c.reservations expected_size min_free available in
    reserve_result c lease result r

abbrev alice : Text
alice = codes "github:id:1"

reserve_test :
    reserve_bytes (new 4 2).reservations 100 50 149
    ≡ (err (insufficient_temp_space (some 150) (some 149)), (new 4 2).reservations)
unfolding reserve_bytes new
reserve_test = refl
