-- ===== src/Server/Staging/Interleaving/Runs.antt =====
-- No interleaving of the atomic steps of src/server/staging.rs panics, and each keeps the accounts.
use lfs_cloud.Prelude.{ℕ, ◌≡◌, refl, inl, inr, Option, none, some, [], ◌∷◌, List, Option-cases}
use lfs_cloud.Server.Staging.Interleaving.{
  Phase, entered, looked_up, refused, leased, dropping, without_global, without_permits, Upload,
  Crowd, Event, enter, advance, declare, pick_upload, advance_in, declare_in, atomic_step,
  interleave, nobody,
}
use lfs_cloud.Server.Staging.Interleaving.Accounts.{
  IsAccounted, IsAccounted-nobody, IsAmong, total-pick_upload,
}
use lfs_cloud.Server.Staging.Interleaving.Steps.{
  enter-IsAccounted, looked_up-IsAccounted, taken-IsAccounted, refused-IsAccounted,
  left-IsAccounted, given-IsAccounted,
}
use lfs_cloud.Server.Staging.Interleaving.Spending.{declared-IsAccounted, released-IsAccounted}

module _ (gl pl min_free : ℕ) where
  advance_in-IsAccounted :
      (w : Crowd) (u : Upload) (rest : List Upload) (phase : Phase)
      → IsAccounted gl pl min_free w
      → IsAmong w.uploads u rest
      → u.phase ≡ phase
      → (w' : Crowd) × (advance_in w u rest phase ≡ some w') × IsAccounted gl pl min_free w'
  advance_in-IsAccounted w u rest entered h k e =
      (_, refl, looked_up-IsAccounted gl pl min_free w u rest h k e)
  advance_in-IsAccounted w u rest looked_up h k e =
      (_, refl, taken-IsAccounted gl pl min_free w u rest h k e)
  advance_in-IsAccounted w u rest refused h k e =
      (_, refl, refused-IsAccounted gl pl min_free w u rest h k e)
  advance_in-IsAccounted w u rest leased h k e = (
    _,
    refl,
    left-IsAccounted gl pl min_free w u rest h k (rw e refl) (rw e refl) (rw e refl) (rw e refl),
  )
  advance_in-IsAccounted w u rest dropping h k e = (
    _,
    refl,
    left-IsAccounted gl pl min_free w u rest h k (rw e refl) (rw e refl) (rw e refl) (rw e refl),
  )
  advance_in-IsAccounted w u rest without_global h k e =
      (_, refl, given-IsAccounted gl pl min_free w u rest h k e)
  advance_in-IsAccounted w u rest without_permits h k e =
      let (c, f, ok_c) = released-IsAccounted gl pl min_free w u rest h k e in (_, rw f refl, ok_c)

  declare_in-IsAccounted :
      (w : Crowd) (u : Upload) (rest : List Upload) (size available : ℕ) (phase : Phase)
      (reservation : Option ℕ)
      → IsAccounted gl pl min_free w
      → IsAmong w.uploads u rest
      → u.phase ≡ phase
      → u.reservation ≡ reservation
      → IsAccounted gl pl min_free (declare_in w u rest min_free size available phase reservation)
  declare_in-IsAccounted w u rest size available leased none h k e o =
      declared-IsAccounted gl pl min_free w u rest h k size available _ e o refl
  declare_in-IsAccounted w u rest size available leased (some n) h k e o = h
  declare_in-IsAccounted w u rest size available entered o h k e f = h
  declare_in-IsAccounted w u rest size available looked_up o h k e f = h
  declare_in-IsAccounted w u rest size available refused o h k e f = h
  declare_in-IsAccounted w u rest size available dropping o h k e f = h
  declare_in-IsAccounted w u rest size available without_global o h k e f = h
  declare_in-IsAccounted w u rest size available without_permits o h k e f = h

  atomic_step-IsAccounted :
      (w : Crowd) (e : Event)
      → IsAccounted gl pl min_free w
      → (w' : Crowd) × (atomic_step min_free w e ≡ some w') × IsAccounted gl pl min_free w'
  unfolding atomic_step
  atomic_step-IsAccounted w (enter p) h = (_, refl, enter-IsAccounted gl pl min_free w p h)
  atomic_step-IsAccounted w (advance i) h = elim (Option-cases (pick_upload i w.uploads)) [
    | inl e ↦ (w, rw e refl, h)
    | inr ((u, rest), e) ↦
        let (w', f, ok_w) =
          advance_in-IsAccounted w u rest u.phase h
            (λ held. total-pick_upload held i w.uploads rest u e) refl in
        (w', rw e f, ok_w)
  ]
  atomic_step-IsAccounted w (declare i size available) h =
      elim (Option-cases (pick_upload i w.uploads)) [
        | inl e ↦ (w, rw e refl, h)
        | inr ((u, rest), e) ↦ (
          declare_in w u rest min_free size available u.phase u.reservation,
          rw e refl,
          declare_in-IsAccounted w u rest size available u.phase u.reservation h
              (λ held. total-pick_upload held i w.uploads rest u e) refl refl,
        )
      ]

  interleave-from :
      (es : List Event) (w : Crowd)
      → IsAccounted gl pl min_free w
      → (w' : Crowd) × (interleave min_free w es ≡ some w') × IsAccounted gl pl min_free w'
  unfolding interleave
  interleave-from [] w h = (w, refl, h)
  interleave-from (e ∷ es) w h =
      let (w', f, ok_w) = atomic_step-IsAccounted w e h in
      let (w'', g, ok_end) = interleave-from es w' ok_w in (w'', rw f g, ok_end)

  pub interleave-IsAccounted :
      (es : List Event)
      → (w : Crowd) × (interleave min_free (nobody gl pl) es ≡ some w)
        × IsAccounted gl pl min_free w
  interleave-IsAccounted es = interleave-from es (nobody gl pl) (IsAccounted-nobody gl pl min_free)
