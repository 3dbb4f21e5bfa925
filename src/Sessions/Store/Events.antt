-- ===== src/Sessions/Store/Events.antt =====
-- What happens to a session store of src/sessions.rs, in the order in which its lock is taken.
use lfs_cloud.Prelude.{ℕ, [], ◌∷◌, List, Result}
use lfs_cloud.Prelude.Text.{Text}
use lfs_cloud.Errors.{ServerError}
use lfs_cloud.Sessions.{LfsSessionToken}
use lfs_cloud.Sessions.Admission.{SessionStoreLimits}
use lfs_cloud.Sessions.Durable.{SessionCodec}
use lfs_cloud.Sessions.Store.{Store, Issue, issue_session_record, verify_record, revoke, store_len}

pub data Event : Type 0 where
  issues : Issue → Event
  verifies : ℕ → LfsSessionToken → Event
  -- with the answer of the database
  revokes : ℕ → Result ServerError (Unit {0}) → LfsSessionToken → Event
  counts : ℕ → Event

module _ (sha256 : Text → List ℕ) (codec : SessionCodec) (limits : SessionStoreLimits) where
  unfoldable pub step : Event → Store → Store
  step (issues request) store = (issue_session_record sha256 codec limits request store).1
  step (verifies now token) store = (verify_record sha256 now token store).1
  step (revokes now deleted token) store = (revoke sha256 now deleted token store).1
  step (counts now) store = (store_len now store).1

  unfoldable pub run : List Event → Store → Store
  run [] store = store
  run (event ∷ events) store = run events (step event store)
