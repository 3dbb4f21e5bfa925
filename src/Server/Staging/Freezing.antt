-- ===== src/Server/Staging/Freezing.antt =====
-- How src/server/staging.rs freezes the free space: the snapshot is what was seen by the declaration
-- that first reserved space, and is kept as long as there is one.
use lfs_cloud.Prelude.{
  ℕ, ◌≡◌, refl, ◌⊎◌, inl, inr, Option, some, none, [], ◌∷◌, List, Result, ok, err, Option-cases,
  arith,
}
use lfs_cloud.Prelude.Text.{Text}
use lfs_cloud.Server.Staging.Coordinator.{
  Reservations, Coordinator, Lease, UploadStagingError, new, reserve_bytes, release_bytes,
  release_held, after_release, release_reservation, give_user, give_global, take_global,
  look_up_user, take_user, assign_reservation, drop_lease, reserve, try_acquire, reserve_result,
}
use lfs_cloud.Server.Staging.World.{
  World, Event, acquire, declare, finish, pick, step, run, start, and_run, after_declare,
  after_finish, declare_picked, finish_picked,
}

abbrev pub snapshot_of : World → Option ℕ
snapshot_of w = w.coordinator.reservations.available_space_snapshot

-- A declaration that sees this free space.
abbrev pub Sees : Event → ℕ → Type 0
Sees (declare i size available) s = available ≡ s
Sees (acquire p) s = ⊥
Sees (finish i) s = ⊥

-- From the state on and through all these events the snapshot is `s`.
abbrev pub Keeps : ℕ → World → List Event → ℕ → Type 0
Keeps min_free w [] s = snapshot_of w ≡ some s
Keeps min_free w (e ∷ es) s =
    (snapshot_of w ≡ some s)
    × ((w' : World) × (step min_free w e ≡ some w') × Keeps min_free w' es s)

-- One of the events is a declaration that sees `s` while there is no snapshot, and from then on the
-- snapshot is `s`.
abbrev pub IsFrozen : ℕ → World → List Event → ℕ → Type 0
IsFrozen min_free w [] s = ⊥
IsFrozen min_free w (e ∷ es) s =
    (w' : World) × (step min_free w e ≡ some w')
    × ((Sees e s × (snapshot_of w ≡ none) × Keeps min_free w' es s) ⊎ IsFrozen min_free w' es s)

Keeps-now :
    (min_free : ℕ) (w : World) (es : List Event) (s : ℕ)
    → Keeps min_free w es s
    → snapshot_of w ≡ some s
Keeps-now min_free w [] s h = h
Keeps-now min_free w (e ∷ es) s h = h.0

-- Releasing keeps the snapshot or forgets it.
release_held-snapshot :
    (r r' : Reservations) (o : Option ℕ) (s : ℕ)
    → release_held r o ≡ some r'
    → r'.available_space_snapshot ≡ some s
    → r.available_space_snapshot ≡ some s
unfolding release_bytes
release_held-snapshot r r' none s e h = cc
release_held-snapshot r r' (some n) s e h = ground (arith, e, h)

after_release-snapshot :
    (c c' : Coordinator) (r : Reservations) (o : Option ℕ) (released : Option Reservations) (s : ℕ)
    → release_held r o ≡ released
    → after_release c released ≡ some c'
    → c'.reservations.available_space_snapshot ≡ some s
    → r.available_space_snapshot ≡ some s
after_release-snapshot c c' r o none s x e h = cc
after_release-snapshot c c' r o (some r') s x e h =
    release_held-snapshot r r' o s x (ground (arith, e, h))

drop_lease-snapshot :
    (c c' : Coordinator) (l : Lease) (s : ℕ)
    → drop_lease c l ≡ some c'
    → c'.reservations.available_space_snapshot ≡ some s
    → c.reservations.available_space_snapshot ≡ some s
unfolding drop_lease release_reservation give_user give_global
drop_lease-snapshot c c' l s e h =
    after_release-snapshot (give_user (give_global c) l.principal) c' c.reservations l.reservation _
      s refl e h

-- A reservation keeps the snapshot, or freezes the free space that it sees.
reserve_bytes-snapshot :
    (r : Reservations) (size min_free available s : ℕ)
    → (reserve_bytes r size min_free available).1.available_space_snapshot ≡ some s
    → (r.available_space_snapshot ≡ some s)
      ⊎ ((available ≡ s) × (r.available_space_snapshot ≡ none))
unfolding reserve_bytes
reserve_bytes-snapshot r size min_free available s h =
    elim (Option-cases r.available_space_snapshot) [
      | inl e ↦ ground (arith, e, h)
      | inr (old, e) ↦ inl (ground (arith, e, h))
    ]

assigned-snapshot :
    (c : Coordinator) (l : Lease) (n : ℕ) (r : Reservations) (o : Option Reservations)
    (rest : List Lease) (w' : World) (s : ℕ)
    → release_held r l.reservation ≡ o
    → after_declare rest (assign_reservation c l n o) ≡ some w'
    → snapshot_of w' ≡ some s
    → r.available_space_snapshot ≡ some s
assigned-snapshot c l n r none rest w' s x e h = cc
assigned-snapshot c l n r (some r') rest w' s x e h =
    release_held-snapshot r r' l.reservation s x (ground (arith, e, h))

dropped-snapshot :
    (c : Coordinator) (l : Lease) (o : Option Coordinator) (rest : List Lease) (w' : World) (s : ℕ)
    → drop_lease c l ≡ o
    → after_finish rest o ≡ some w'
    → snapshot_of w' ≡ some s
    → c.reservations.available_space_snapshot ≡ some s
dropped-snapshot c l none rest w' s x e h = cc
dropped-snapshot c l (some c') rest w' s x e h =
    drop_lease-snapshot c c' l s x (ground (arith, e, h))

refused-snapshot :
    (c : Coordinator) (l : Lease) (x : UploadStagingError) (o : Option Coordinator)
    (rest : List Lease) (w' : World) (s : ℕ)
    → drop_lease c l ≡ o
    → after_declare rest (elim o [ none ↦ none | some dropped ↦ some (err x, dropped) ]) ≡ some w'
    → snapshot_of w' ≡ some s
    → c.reservations.available_space_snapshot ≡ some s
refused-snapshot c l x none rest w' s d e h = cc
refused-snapshot c l x (some c') rest w' s d e h =
    drop_lease-snapshot c c' l s d (ground (arith, e, h))

reserve_result-snapshot :
    (c : Coordinator) (l : Lease) (x : Result UploadStagingError ℕ) (r : Reservations)
    (rest : List Lease) (w' : World) (s : ℕ)
    → after_declare rest (reserve_result c l x r) ≡ some w'
    → snapshot_of w' ≡ some s
    → r.available_space_snapshot ≡ some s
unfolding reserve_result
reserve_result-snapshot c l (ok n) r rest w' s e h = assigned-snapshot c l n r _ rest w' s refl e h
reserve_result-snapshot c l (err x) r rest w' s e h =
    refused-snapshot (record c { reservations = r }) l x _ rest w' s refl e h

declare_picked-snapshot :
    (min_free : ℕ) (w w' : World) (size available : ℕ) (o : Option (Lease × List Lease)) (s : ℕ)
    → declare_picked w min_free size available o ≡ some w'
    → snapshot_of w' ≡ some s
    → (snapshot_of w ≡ some s) ⊎ ((available ≡ s) × (snapshot_of w ≡ none))
unfolding reserve
declare_picked-snapshot min_free w w' size available none s e h = inl (ground (arith, e, h))
declare_picked-snapshot min_free w w' size available (some (l, rest)) s e h =
    let (x, r) = reserve_bytes w.coordinator.reservations size min_free available in
    reserve_bytes-snapshot w.coordinator.reservations size min_free available s
      (reserve_result-snapshot w.coordinator l _ _ rest w' s e h)

finish_picked-snapshot :
    (w w' : World) (o : Option (Lease × List Lease)) (s : ℕ)
    → finish_picked w o ≡ some w'
    → snapshot_of w' ≡ some s
    → snapshot_of w ≡ some s
finish_picked-snapshot w w' none s e h = ground (arith, e, h)
finish_picked-snapshot w w' (some (l, rest)) s e h =
    dropped-snapshot w.coordinator l _ rest w' s refl e h

try_acquire-reservations :
    (c : Coordinator) (p : Text) → (try_acquire c p).1.reservations ≡ c.reservations
unfolding try_acquire take_global look_up_user take_user give_global
try_acquire-reservations c p = ground arith

-- One event keeps the snapshot, forgets it, or freezes what it sees.
step-snapshot :
    (min_free : ℕ) (w w' : World) (e : Event) (s : ℕ)
    → step min_free w e ≡ some w'
    → snapshot_of w' ≡ some s
    → (snapshot_of w ≡ some s) ⊎ (Sees e s × (snapshot_of w ≡ none))
unfolding step
step-snapshot min_free w w' (acquire p) s f h =
    inl (ground (arith, f, h, try_acquire-reservations w.coordinator p))
step-snapshot min_free w w' (declare i size available) s f h =
    declare_picked-snapshot min_free w w' size available (pick i w.leases) s f h
step-snapshot min_free w w' (finish i) s f h =
    inl (finish_picked-snapshot w w' (pick i w.leases) s f h)

stepped-snapshot :
    (min_free : ℕ) (e : Event) (es : List Event) (w w' : World) (s : ℕ) (o : Option World)
    → step min_free w e ≡ o
    → and_run (λ u. run min_free u es) o ≡ some w'
    → ((u : World) → run min_free u es ≡ some w' → Keeps min_free u es s ⊎ IsFrozen min_free u es s)
    → Keeps min_free w (e ∷ es) s ⊎ IsFrozen min_free w (e ∷ es) s
stepped-snapshot min_free e es w w' s none x f later = cc
stepped-snapshot min_free e es w w' s (some u) x f later = elim (later u f) [
  | inl k ↦ elim (step-snapshot min_free w u e s x (Keeps-now min_free u es s k)) [
    | inl same ↦ inl (same, (u, x, k))
    | inr (sees, fresh) ↦ inr (u, x, inl (sees, fresh, k))
  ]
  | inr k ↦ inr (u, x, inr k)
]

run-snapshot :
    (min_free : ℕ) (es : List Event) (w w' : World) (s : ℕ)
    → run min_free w es ≡ some w'
    → snapshot_of w' ≡ some s
    → Keeps min_free w es s ⊎ IsFrozen min_free w es s
unfolding run
run-snapshot min_free [] w w' s f h = inl (ground (arith, f, h))
run-snapshot min_free (e ∷ es) w w' s f h =
    stepped-snapshot min_free e es w w' s (step min_free w e) refl f
      λ u g. run-snapshot min_free es u w' s g h

-- Since a new coordinator has no snapshot, each snapshot was frozen by an event.
pub run-IsFrozen :
    (gl pl min_free : ℕ) (es : List Event) (w : World) (s : ℕ)
    → run min_free (start gl pl) es ≡ some w
    → snapshot_of w ≡ some s
    → IsFrozen min_free (start gl pl) es s
unfolding new
run-IsFrozen gl pl min_free es w s f h = elim (run-snapshot min_free es (start gl pl) w s f h) [
  | inl k ↦ absurd (let g = Keeps-now min_free (start gl pl) es s k in cc)
  | inr k ↦ k
]
