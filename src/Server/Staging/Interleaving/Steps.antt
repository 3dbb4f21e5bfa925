-- ===== src/Server/Staging/Interleaving/Steps.antt =====
-- The atomic steps of src/server/staging.rs that take and give permits keep the accounts.
use lfs_cloud.Prelude.{ℕ, ◌<◌, ◌≡◌, true, ap, inl, inr, List, ◌==◌, Bool-cases, arith}
use lfs_cloud.Prelude.Text.{Text, text_eq_refl}
use lfs_cloud.Server.Staging.Coordinator.{
  take_global, give_global, look_up_user, take_user, give_user, permits_of, retain_alive,
}
use lfs_cloud.Server.Staging.Slots.{
  strong_of, strong_of-retain_alive, retain_alive-IsUnique, with_user-IsUnique,
}
use lfs_cloud.Server.Staging.Slots.Moves.{
  upgrade-IsUnique, take_permit-IsUnique, strong_of-take_permit, give_permit-IsUnique,
  strong_of-give_permit,
}
use lfs_cloud.Server.Staging.Interleaving.{
  entered, looked_up, refused, without_global, without_permits, Upload, Crowd, after_enter,
  in_phase, after_take, global_in, arcs_in, permits_in, has_lease, total, global_held, arcs_held,
  permits_held, bytes_held, reservations_held,
}
use lfs_cloud.Server.Staging.Interleaving.Permits.{
  free_of-retain_alive, free_of-looked_up, strong_of-looked_up, downgrade-IsUnique,
  free_of-downgrade, strong_of-downgrade, free_of-take_permit, free_of-give_permit,
}
use lfs_cloud.Server.Staging.Interleaving.Accounts.{IsAccounted, IsAmong, holders, permits_le_arcs}

module _ (gl pl min_free : ℕ) where
  pub enter-IsAccounted :
      (w : Crowd) (p : Text)
      → IsAccounted gl pl min_free w
      → IsAccounted gl pl min_free (after_enter w p (take_global w.coordinator))
  unfolding take_global total
  enter-IsAccounted w p h = elim (Bool-cases (w.coordinator.global_slots == 0)) [
    | inl full ↦ rw full h
    | inr room ↦ rw room (record {
      global = ground (arith, h.global, room);
      limit = h.limit;
      unique = h.unique;
      arcs = λ q. ground (arith, h.arcs q);
      permits = λ q. ground (arith, h.permits q);
      reserved = omega (arith, h.reserved);
      snapshot = holders gl pl min_free w h _ (omega arith);
    })
  ]

  module _ (w : Crowd) (u : Upload) (rest : List Upload) (h : IsAccounted gl pl min_free w)
      (k : IsAmong w.uploads u rest) where
    pub looked_up-IsAccounted :
        u.phase ≡ entered
        → IsAccounted gl pl min_free
            (in_phase w (look_up_user w.coordinator u.principal) u looked_up rest)
    unfolding look_up_user total
    looked_up-IsAccounted e =
        let slots = w.coordinator.per_user_slots in
        record {
          global = ground (arith, h.global, k global_held, e);
          limit = h.limit;
          unique = upgrade-IsUnique u.principal _ (
              with_user-IsUnique w.coordinator.per_user_limit u.principal _
                (retain_alive-IsUnique slots h.unique));
          arcs = λ q.
              rw
                (
                  strong_of-looked_up w.coordinator.per_user_limit u.principal q
                      (retain_alive slots),
                  strong_of-retain_alive q slots h.unique,
                )
                (ground (arith, h.arcs q, k (arcs_held q), e));
          permits = λ q.
              rw
                (
                  h.limit,
                  free_of-looked_up pl u.principal q (retain_alive slots),
                  free_of-retain_alive pl q slots h.unique,
                )
                (ground (
                  arith,
                  h.permits q,
                  h.arcs q,
                  permits_le_arcs q w.uploads,
                  k (permits_held q),
                  e,
                ));
          reserved = ground (arith, h.reserved, k bytes_held, e);
          snapshot = holders gl pl min_free w h _ (ground (arith, k reservations_held, e));
        }

    pub has_arc : arcs_in u.phase ≡ 1 → 0 < strong_of u.principal w.coordinator.per_user_slots
    has_arc e =
        ground (arith, h.arcs u.principal, k (arcs_held u.principal), e, text_eq_refl u.principal)

    pub taken-IsAccounted :
        u.phase ≡ looked_up
        → IsAccounted gl pl min_free (after_take w u rest (take_user w.coordinator u.principal))
    unfolding take_user total
    taken-IsAccounted e =
        let slots = w.coordinator.per_user_slots in
        let present = has_arc (ap arcs_in e) in
        elim (Bool-cases (permits_of u.principal slots == 0)) [
          | inl spent ↦ rw spent (record {
            global = ground (arith, h.global, k global_held, e);
            limit = h.limit;
            unique = downgrade-IsUnique u.principal slots h.unique;
            arcs = λ q. ground (
              arith,
              strong_of-downgrade u.principal q slots present,
              h.arcs q,
              k (arcs_held q),
              e,
            );
            permits = λ q.
                rw (free_of-downgrade pl u.principal q slots)
                  (ground (arith, h.permits q, k (permits_held q), e));
            reserved = ground (arith, h.reserved, k bytes_held, e);
            snapshot = holders gl pl min_free w h _ (ground (arith, k reservations_held, e));
          })
          | inr room ↦ rw room (record {
            global = ground (arith, h.global, k global_held, e);
            limit = h.limit;
            unique = take_permit-IsUnique u.principal slots h.unique;
            arcs = λ q.
                rw (strong_of-take_permit u.principal q slots)
                  (ground (arith, h.arcs q, k (arcs_held q), e));
            permits = λ q. ground (
              arith,
              free_of-take_permit pl u.principal q slots (ground (arith, room)),
              h.permits q,
              k (permits_held q),
              e,
            );
            reserved = ground (arith, h.reserved, k bytes_held, e);
            snapshot = holders gl pl min_free w h _ (ground (arith, k reservations_held, e));
          })
        ]

    pub refused-IsAccounted :
        u.phase ≡ refused
        → IsAccounted gl pl min_free
            (record { coordinator = give_global w.coordinator; uploads = rest })
    unfolding give_global
    refused-IsAccounted e = record {
      global = ground (arith, h.global, k global_held, e);
      limit = h.limit;
      unique = h.unique;
      arcs = λ q. ground (arith, h.arcs q, k (arcs_held q), e);
      permits = λ q. ground (arith, h.permits q, k (permits_held q), e);
      reserved = ground (arith, h.reserved, k bytes_held, e);
      snapshot = holders gl pl min_free w h _ (ground (arith, k reservations_held, e));
    }

    pub left-IsAccounted :
        global_in u.phase ≡ 1
        → arcs_in u.phase ≡ 1
        → permits_in u.phase ≡ 1
        → has_lease u.phase ≡ true
        → IsAccounted gl pl min_free (in_phase w (give_global w.coordinator) u without_global rest)
    unfolding give_global total
    left-IsAccounted e f g l = record {
      global = ground (arith, h.global, k global_held, e);
      limit = h.limit;
      unique = h.unique;
      arcs = λ q. ground (arith, h.arcs q, k (arcs_held q), f);
      permits = λ q. ground (arith, h.permits q, k (permits_held q), g);
      reserved = ground (arith, h.reserved, k bytes_held, l);
      snapshot = holders gl pl min_free w h _ (ground (arith, k reservations_held, l));
    }

    pub given-IsAccounted :
        u.phase ≡ without_global
        → IsAccounted gl pl min_free
            (in_phase w (give_user w.coordinator u.principal) u without_permits rest)
    unfolding give_user total
    given-IsAccounted e =
        let slots = w.coordinator.per_user_slots in
        let present = has_arc (ap arcs_in e) in
        record {
          global = ground (arith, h.global, k global_held, e);
          limit = h.limit;
          unique = give_permit-IsUnique u.principal slots h.unique;
          arcs = λ q. ground (
            arith,
            strong_of-give_permit u.principal q slots present,
            h.arcs q,
            k (arcs_held q),
            e,
          );
          permits = λ q. ground (
            arith,
            free_of-give_permit pl u.principal q slots present,
            h.permits q,
            k (permits_held q),
            e,
          );
          reserved = ground (arith, h.reserved, k bytes_held, e);
          snapshot = holders gl pl min_free w h _ (ground (arith, k reservations_held, e));
        }
