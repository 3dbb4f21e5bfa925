-- ===== src/Server/Batch/Lookup/Pointwise.antt =====
-- A batch lookup answers for each requested object what its own lookup gives.
use lfs_cloud.Prelude.{
  ◌≡◌, refl, ap, sym, inl, inr, true, Option, some, [], ◌∷◌, List, map, any, Result, Bool-cases,
  arith,
}
use lfs_cloud.Errors.{ServerError}
use lfs_cloud.Lfs.Oid.{LfsObject}
use lfs_cloud.Server.Batch.Lookup.{
  StoredObject, collect_into, outcomes_of, look_up_each, batch_objects_with_lookups,
  batch_objects_with_storage_lookup,
}
use lfs_cloud.Server.Batch.Lookup.Objects.{
  object_eq, object_eq_iff, object_eq_refl, unique_objects, any-unique_objects, get_outcome,
  insert_outcome, get_outcome-insert_outcome,
}

module _ {T : Type 0} (f : LfsObject → T) where
  abbrev entries_for : List LfsObject → List (LfsObject × T)
  entries_for objects = map (λ o. (o, f o)) objects

  same-answer : (o p : LfsObject) → object_eq o p ≡ true → some (f p) ≡ some (f o)
  same-answer o p h = ap (λ x. some (f x)) (sym ((object_eq_iff o p).0 h))

  -- Collecting keeps an answer that the map has.
  get_outcome-kept :
      (o : LfsObject) (objects : List LfsObject) (m : List (LfsObject × T))
      → get_outcome o m ≡ some (f o)
      → get_outcome o (collect_into m (entries_for objects)) ≡ some (f o)
  unfolding collect_into
  get_outcome-kept o [] m h = h
  get_outcome-kept o (p ∷ objects) m h =
      get_outcome-kept o objects (insert_outcome p (f p) m)
        (ground (arith, get_outcome-insert_outcome o p (f p) m, same-answer o p))

  get_outcome-collected :
      (o : LfsObject) (objects : List LfsObject) (m : List (LfsObject × T))
      → any (object_eq o) objects ≡ true
      → get_outcome o (collect_into m (entries_for objects)) ≡ some (f o)
  unfolding collect_into
  get_outcome-collected o [] m h = cc
  get_outcome-collected o (p ∷ objects) m h = elim (Bool-cases (object_eq o p)) [
    | inl e ↦
        get_outcome-kept o objects (insert_outcome p (f p) m)
          (ground (arith, get_outcome-insert_outcome o p (f p) m, same-answer o p))
    | inr e ↦ get_outcome-collected o objects (insert_outcome p (f p) m) (ground arith)
  ]

  look_up_each-entries :
      (lookup : LfsObject → Result ServerError (Option StoredObject))
      (outcome_from_lookup : LfsObject → Result ServerError (Option StoredObject) → T)
      (objects : List LfsObject)
      → ((o : LfsObject) → f o ≡ outcome_from_lookup o (lookup o))
      → (look_up_each lookup outcome_from_lookup objects).1 ≡ entries_for objects
  unfolding look_up_each
  look_up_each-entries lookup outcome_from_lookup [] h = refl
  look_up_each-entries lookup outcome_from_lookup (o ∷ objects) h =
      rw (h o, look_up_each-entries lookup outcome_from_lookup objects h) refl

  outcomes_of-entries_for :
      (m : List (LfsObject × T)) (requested : List LfsObject)
      → ((o : LfsObject) → any (object_eq o) requested ≡ true → get_outcome o m ≡ some (f o))
      → outcomes_of m requested ≡ some (map f requested)
  unfolding outcomes_of
  outcomes_of-entries_for m [] h = refl
  outcomes_of-entries_for m (o ∷ requested) h =
      let rest = outcomes_of-entries_for m requested (λ p k. h p (ground arith)) in
      let here = h o (ground (arith, object_eq_refl o)) in rw (here, rest) refl

-- The answers come in the order of the request, one for each entry, and `expect` never panics.
pub batch_objects-pointwise :
    {T : Type 0} (lookup : LfsObject → Result ServerError (Option StoredObject))
    (requested : List LfsObject)
    (outcome_from_lookup : LfsObject → Result ServerError (Option StoredObject) → T)
    → batch_objects_with_storage_lookup lookup requested outcome_from_lookup
      ≡ some (map (λ o. outcome_from_lookup o (lookup o)) requested)
unfolding batch_objects_with_storage_lookup batch_objects_with_lookups
batch_objects-pointwise lookup requested outcome_from_lookup =
    let f = λ (o : LfsObject). outcome_from_lookup o (lookup o) in
    rw (look_up_each-entries f lookup outcome_from_lookup (unique_objects requested) (λ o. refl)) (
      outcomes_of-entries_for f _ requested λ o h.
        get_outcome-collected f o (unique_objects requested) []
          (ground (arith, any-unique_objects o requested)))
