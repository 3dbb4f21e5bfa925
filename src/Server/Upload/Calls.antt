-- ===== src/Server/Upload/Calls.antt =====
-- What an upload request of src/server/request.rs does to the database, the storage and the limits.
use lfs_cloud.Prelude.{
  ℕ, ◌+◌, ◌≤◌, ◌≡◌, Bool, true, false, Option, some, [], ◌∷◌, List, ltb, if◌then◌else◌, Result, ok,
  err,
}
use lfs_cloud.Prelude.Text.{Text}
use lfs_cloud.Errors.{ServerError}
use lfs_cloud.Server.Staging.Coordinator.{Coordinator, Lease}
use lfs_cloud.Server.Staging.World.{World}
use lfs_cloud.Server.Staging.Invariant.{IsConsistent}
use lfs_cloud.Server.Staging.Body.{Bytes}
use lfs_cloud.Server.Staging.Stage.{Environment}
use lfs_cloud.Server.Upload.{Call, start, finish, Services, Outcome}

abbrev pub starts : List Call → ℕ
starts [] = 0
starts (start _ ∷ calls) = 1 + starts calls
starts (_ ∷ calls) = starts calls

abbrev pub finishes : List Call → ℕ
finishes [] = 0
finishes (finish _ _ ∷ calls) = 1 + finishes calls
finishes (_ ∷ calls) = finishes calls

abbrev pub is_ok {ℓ κ} : {E : Type κ} {A : Type ℓ} → Result E A → Bool
is_ok (ok _) = true
is_ok (err _) = false

-- How many attempts a start records.
abbrev pub recorded : Result ServerError (Option ℕ) → ℕ
recorded (ok _) = 1
recorded (err _) = 0

module _ (gl pl : ℕ) (leases : List Lease) where
  -- It is `some` outcome that keeps the leases, and starts and finishes that many attempts.
  abbrev Settles : ℕ → ℕ → Option Outcome → Type 0
  Settles s f o =
      (x : Outcome) × (o ≡ some x)
      × IsConsistent gl pl 67_108_864 (record { coordinator = x.1; leases = leases })
      × (starts x.2 ≡ s)
      × (finishes x.2 ≡ f)

  module _ (digest : Bytes → Text) (environment : Environment) (services : Services) where
    Keeps : Option Outcome → Type 0
    Keeps o =
        (x : Outcome) × (o ≡ some x)
        × IsConsistent gl pl 67_108_864 (record { coordinator = x.1; leases = leases })
        × (starts x.2 ≤ 1)
        × (finishes x.2
            ≡ (if ltb 0 (starts x.2) then recorded services.start_transfer_attempt else 0))
