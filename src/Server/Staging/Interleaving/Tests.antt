-- ===== src/Server/Staging/Interleaving/Tests.antt =====
-- Interleaved uploads on concrete inputs, and the theorem on granted permits at such a state.
use lfs_cloud.Prelude.{ℕ, ◌≡◌, refl, none, some, [], ◌∷◌, List, Option}
use lfs_cloud.Prelude.Text.{Text, codes, text_eq}
use lfs_cloud.Server.Staging.Coordinator.{
  Coordinator, new, take_global, give_global, look_up_user, upgrade, with_user, retain_alive,
  take_user, permits_of, take_permit, downgrade, give_user, give_permit, release_reservation,
  release_bytes, reserve_bytes,
}
use lfs_cloud.Server.Staging.Interleaving.{
  Upload, looked_up, leased, Crowd, Event, enter, advance, declare, pick_upload, atomic_step,
  interleave, nobody,
}

abbrev alice : Text
alice = codes "github:id:1"

abbrev bob : Text
bob = codes "github:login:bob"

-- While Alice has her lease, Bob has come as far as the look-up.
abbrev two_at_once : List Event
two_at_once = enter alice ∷ enter bob ∷ advance 1 ∷ advance 0 ∷ advance 1 ∷ []

abbrev bob_looked_up : Upload
bob_looked_up = record { principal = bob; phase = looked_up; reservation = none }

abbrev alice_leased : Upload
alice_leased = record { principal = alice; phase = leased; reservation = none }

abbrev two_at_once_end : Crowd
two_at_once_end = record {
  coordinator = record {
    global_slots = 1;
    per_user_limit = 1;
    per_user_slots =
        record { principal = alice; permits = 0; strong = 1 }
        ∷ record { principal = bob; permits = 1; strong = 1 }
        ∷ [];
    reservations = record { available_space_snapshot = none; reserved_bytes = 0 };
  };
  uploads = bob_looked_up ∷ alice_leased ∷ [];
}

abbrev coordinator_after : Option Crowd → Option Coordinator
coordinator_after none = none
coordinator_after (some w) = some w.coordinator

abbrev global_after : Option Crowd → Option ℕ
global_after none = none
global_after (some w) = some w.coordinator.global_slots

-- An attempt that its principal's limit is going to refuse keeps the last global permit until then.
refused_soon :
    global_after (
      interleave 50
        (nobody 2 1)
        (enter alice ∷ advance 0 ∷ advance 0 ∷ enter alice ∷ advance 0 ∷ advance 0 ∷ []))
    ≡ some 0
unfolding interleave atomic_step pick_upload take_global give_global look_up_user upgrade with_user
    retain_alive take_user permits_of take_permit downgrade new text_eq
refused_soon = refl

refused_at_last :
    global_after (
      interleave 50 (nobody 2 1) (
        enter alice ∷ advance 0 ∷ advance 0 ∷ enter alice ∷ advance 0 ∷ advance 0 ∷ advance 0 ∷ []))
    ≡ some 1
unfolding interleave atomic_step pick_upload take_global give_global look_up_user upgrade with_user
    retain_alive take_user permits_of take_permit downgrade new text_eq
refused_at_last = refl

-- A lease that is refused its bytes is dropped, one field after another; the entry of its principal is
-- purged as soon as another attempt looks its own up.
abbrev too_big : List Event
too_big =
    enter alice
    ∷ advance 0
    ∷ advance 0
    ∷ declare 0 100 120
    ∷ advance 0
    ∷ enter bob
    ∷ advance 1
    ∷ advance 1
    ∷ advance 0
    ∷ []

too_big-interleave :
    coordinator_after (interleave 50 (nobody 1 1) too_big)
    ≡ some (record {
      global_slots = 0;
      per_user_limit = 1;
      per_user_slots = record { principal = bob; permits = 0; strong = 1 } ∷ [];
      reservations = record { available_space_snapshot = none; reserved_bytes = 0 };
    })
unfolding interleave atomic_step pick_upload take_global give_global look_up_user upgrade with_user
    retain_alive take_user permits_of take_permit downgrade new text_eq reserve_bytes give_user
    give_permit release_reservation release_bytes
too_big-interleave = refl

kept_to_the_end :
    coordinator_after (
      interleave 50 (nobody 1 1) (
        enter alice
        ∷ advance 0
        ∷ advance 0
        ∷ declare 0 100 180
        ∷ advance 0
        ∷ advance 0
        ∷ advance 0
        ∷ []))
    ≡ some (record {
      global_slots = 1;
      per_user_limit = 1;
      per_user_slots = record { principal = alice; permits = 1; strong = 0 } ∷ [];
      reservations = record { available_space_snapshot = none; reserved_bytes = 0 };
    })
unfolding interleave atomic_step pick_upload take_global give_global look_up_user upgrade with_user
    retain_alive take_user permits_of take_permit downgrade new text_eq reserve_bytes give_user
    give_permit release_reservation release_bytes
kept_to_the_end = refl
