-- ===== src/Server/Batch/Lookup/Order.antt =====
-- The set of objects is strictly sorted, so it has no object twice.
use lfs_cloud.Prelude.{
  ℕ, ◌+◌, ◌≡◌, refl, Option, Result, inl, inr, true, false, [], ◌∷◌, List, if◌then◌else◌, any, All,
  Bool-cases, ap, subst, sym, ◌∙◌, arith,
}
use lfs_cloud.Prelude.Text.{Text, text_ltb, text_eq, text_eq_iff}
use lfs_cloud.Lfs.Oid.{LfsObject}
use lfs_cloud.Errors.{ServerError}
use lfs_cloud.Server.Batch.Lookup.{StoredObject, look_up_each, batch_objects_with_lookups}
use lfs_cloud.Server.Batch.Lookup.Objects.{
  object_eq, object_ltb, object_eq_iff, insert_object, insert_all, unique_objects,
  any-unique_objects,
}

text_ltb_trans : (s t u : Text) → text_ltb s t ≡ true → text_ltb t u ≡ true → text_ltb s u ≡ true
unfolding text_ltb
text_ltb_trans [] [] u h k = cc
text_ltb_trans [] (d ∷ t) [] h k = cc
text_ltb_trans [] (d ∷ t) (e ∷ u) h k = refl
text_ltb_trans (c ∷ s) [] u h k = cc
text_ltb_trans (c ∷ s) (d ∷ t) [] h k = cc
text_ltb_trans (c ∷ s) (d ∷ t) (e ∷ u) h k = ground (arith, text_ltb_trans s t u)

text_ltb_total : (s t : Text) → text_ltb s t ≡ false → text_eq s t ≡ false → text_ltb t s ≡ true
unfolding text_ltb text_eq
text_ltb_total [] [] h k = cc
text_ltb_total [] (d ∷ t) h k = cc
text_ltb_total (c ∷ s) [] h k = refl
text_ltb_total (c ∷ s) (d ∷ t) h k = ground (arith, text_ltb_total s t)

text_ltb_irrefl : (s : Text) → text_ltb s s ≡ false
unfolding text_ltb
text_ltb_irrefl [] = refl
text_ltb_irrefl (c ∷ s) = ground (arith, text_ltb_irrefl s)

object_ltb_trans :
    (a b c : LfsObject) → object_ltb a b ≡ true → object_ltb b c ≡ true → object_ltb a c ≡ true
unfolding object_ltb
object_ltb_trans a b c h k = ground (
  arith,
  text_ltb_trans a.oid.hex b.oid.hex c.oid.hex,
  text_eq_iff a.oid.hex b.oid.hex,
  text_eq_iff b.oid.hex c.oid.hex,
  text_eq_iff a.oid.hex c.oid.hex,
)

object_ltb_total :
    (a b : LfsObject) → object_eq a b ≡ false → object_ltb a b ≡ false → object_ltb b a ≡ true
unfolding object_ltb object_eq
object_ltb_total a b h k = ground (
  arith,
  text_ltb_total a.oid.hex b.oid.hex,
  text_eq_iff a.oid.hex b.oid.hex,
  text_eq_iff b.oid.hex a.oid.hex,
)

object_ltb_apart : (a b : LfsObject) → object_ltb a b ≡ true → object_eq a b ≡ false
unfolding object_ltb object_eq
object_ltb_apart a b h = ground (arith, text_ltb_irrefl a.oid.hex, text_eq_iff a.oid.hex b.oid.hex)

abbrev Below : LfsObject → List LfsObject → Type 0
Below o set = All (λ p. (object_ltb o p ≡ true)) set

IsSorted : List LfsObject → Type 0
IsSorted [] = Unit
IsSorted (o ∷ set) = Below o set × IsSorted set

Below-trans :
    (a b : LfsObject) (set : List LfsObject) → object_ltb a b ≡ true → Below b set → Below a set
Below-trans a b [] h k = tt
Below-trans a b (c ∷ set) h (k, ks) = (object_ltb_trans a b c h k, Below-trans a b set h ks)

Below-insert_object :
    (a o : LfsObject) (set : List LfsObject)
    → object_ltb a o ≡ true
    → Below a set
    → Below a (insert_object o set)
unfolding insert_object
Below-insert_object a o [] h k = (h, tt)
Below-insert_object a o (p ∷ set) h (k, ks) = ground (arith, Below-insert_object a o set h ks)

insert_object-IsSorted :
    (o : LfsObject) (set : List LfsObject) → IsSorted set → IsSorted (insert_object o set)
unfolding insert_object IsSorted
insert_object-IsSorted o [] h = (tt, tt)
insert_object-IsSorted o (p ∷ set) (h, hs) = elim (Bool-cases (object_eq o p)) [
  | inl e ↦ rw e (h, hs)
  | inr e ↦ elim (Bool-cases (object_ltb o p)) [
    | inl l ↦ rw (e, l) ((l, Below-trans o p set l h), (h, hs))
    | inr l ↦
        rw (e, l)
          (
            Below-insert_object p o set (object_ltb_total o p e l) h,
            insert_object-IsSorted o set hs,
          )
  ]
]

insert_all-IsSorted :
    (set requested : List LfsObject) → IsSorted set → IsSorted (insert_all set requested)
insert_all-IsSorted set [] h = h
insert_all-IsSorted set (o ∷ requested) h =
    insert_all-IsSorted (insert_object o set) requested (insert_object-IsSorted o set h)

-- How often a list has an object.
unfoldable pub occurrences : LfsObject → List LfsObject → ℕ
occurrences o [] = 0
occurrences o (p ∷ objects) =
    let rest = occurrences o objects in if object_eq o p then rest + 1 else rest

occurrences-Below : (o : LfsObject) (set : List LfsObject) → Below o set → occurrences o set ≡ 0
unfolding occurrences
occurrences-Below o [] h = refl
occurrences-Below o (p ∷ set) (h, hs) =
    ground (arith, object_ltb_apart o p h, occurrences-Below o set hs)

occurrences-IsSorted :
    (o : LfsObject) (set : List LfsObject)
    → IsSorted set
    → occurrences o set ≡ (if any (object_eq o) set then 1 else 0)
unfolding occurrences IsSorted
occurrences-IsSorted o [] h = refl
occurrences-IsSorted o (p ∷ set) (h, hs) = elim (Bool-cases (object_eq o p)) [
  | inl e ↦ rw e (
      ap (λ n. n + 1)
        (occurrences-Below o set (subst (λ q. Below q set) (sym ((object_eq_iff o p).0 e)) h)))
  | inr e ↦ rw e (occurrences-IsSorted o set hs)
]

occurrences-unique_objects :
    (o : LfsObject) (requested : List LfsObject)
    → occurrences o (unique_objects requested) ≡ (if any (object_eq o) requested then 1 else 0)
unfolding unique_objects IsSorted
occurrences-unique_objects o requested =
    occurrences-IsSorted o (unique_objects requested) (insert_all-IsSorted [] requested tt)
    ∙ ap (λ b. if b then 1 else 0) (any-unique_objects o requested)

module _ {T : Type 0} (lookup : LfsObject → Result ServerError (Option StoredObject))
    (outcome_from_lookup : LfsObject → Result ServerError (Option StoredObject) → T) where
  look_up_each-asked :
      (objects : List LfsObject) → (look_up_each lookup outcome_from_lookup objects).0 ≡ objects
  unfolding look_up_each
  look_up_each-asked [] = refl
  look_up_each-asked (o ∷ objects) = ap (λ asked. o ∷ asked) (look_up_each-asked objects)

  -- A batch asks the storage for each requested object exactly once, however often the request names
  -- it, and for no other object.
  pub batch_objects-asked_once :
      (o : LfsObject) (requested : List LfsObject)
      → occurrences o (batch_objects_with_lookups lookup requested outcome_from_lookup).0
        ≡ (if any (object_eq o) requested then 1 else 0)
  unfolding batch_objects_with_lookups
  batch_objects-asked_once o requested =
      rw (look_up_each-asked (unique_objects requested)) (occurrences-unique_objects o requested)
