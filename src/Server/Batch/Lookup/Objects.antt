-- ===== src/Server/Batch/Lookup/Objects.antt =====
-- `BTreeSet<LfsObject>` and `BTreeMap<LfsObject, T>`: objects in the order that `LfsObject` derives.
use lfs_cloud.Prelude.{
  ◌≡◌, refl, ◌↔◌, Bool, true, ◌&&◌, ◌||◌, Option, none, some, [], ◌∷◌, List, ◌==◌, ltb,
  if◌then◌else◌, any, subst, arith,
}
use lfs_cloud.Prelude.Text.{text_eq, text_ltb, text_eq_iff, text_eq_refl}
use lfs_cloud.Lfs.Oid.{LfsObject}

unfoldable pub object_eq : LfsObject → LfsObject → Bool
object_eq a b = text_eq a.oid.hex b.oid.hex && a.size == b.size

unfoldable pub object_ltb : LfsObject → LfsObject → Bool
object_ltb a b = text_ltb a.oid.hex b.oid.hex || (text_eq a.oid.hex b.oid.hex && ltb a.size b.size)

-- `BTreeSet::insert` keeps an object that it has.
unfoldable pub insert_object : LfsObject → List LfsObject → List LfsObject
insert_object o [] = o ∷ []
insert_object o (p ∷ set) =
    let rest = insert_object o set in
    if object_eq o p then p ∷ set else if object_ltb o p then o ∷ p ∷ set else p ∷ rest

abbrev pub insert_all : List LfsObject → List LfsObject → List LfsObject
insert_all set [] = set
insert_all set (o ∷ requested) = insert_all (insert_object o set) requested

-- `requested_objects.iter().cloned().collect::<BTreeSet<_>>()`
unfoldable pub unique_objects : List LfsObject → List LfsObject
unique_objects requested = insert_all [] requested

module _ {ℓ} {T : Type ℓ} where
  unfoldable pub get_outcome : LfsObject → List (LfsObject × T) → Option T
  get_outcome o [] = none
  get_outcome o ((p, x) ∷ m) = let rest = get_outcome o m in if object_eq o p then some x else rest

  unfoldable pub insert_outcome : LfsObject → T → List (LfsObject × T) → List (LfsObject × T)
  insert_outcome o x [] = (o, x) ∷ []
  insert_outcome o x ((p, y) ∷ m) =
      let rest = insert_outcome o x m in
      if object_eq o p
      then (p, x) ∷ m
      else if object_ltb o p
      then (o, x) ∷ (p, y) ∷ m
      else (p, y) ∷ rest

LfsObject-ext : (a b : LfsObject) → a.oid.hex ≡ b.oid.hex → a.size ≡ b.size → a ≡ b
LfsObject-ext a b p q = λ i. record { oid = record { hex = p i }; size = q i }

pub object_eq_iff : (a b : LfsObject) → (object_eq a b ≡ true) ↔ (a ≡ b)
unfolding object_eq
object_eq_iff a b = (
  λ h. LfsObject-ext a b (ground (arith, text_eq_iff a.oid.hex b.oid.hex)) (ground arith),
  λ h. subst (λ o. object_eq a o ≡ true) h (ground (arith, text_eq_refl a.oid.hex)),
)

pub object_eq_refl : (a : LfsObject) → object_eq a a ≡ true
object_eq_refl a = (object_eq_iff a a).1 refl

-- Membership after an insertion.
pub any-insert_object :
    (o p : LfsObject) (set : List LfsObject)
    → any (object_eq o) (insert_object p set) ≡ (object_eq o p || any (object_eq o) set)
unfolding insert_object
any-insert_object o p [] = refl
any-insert_object o p (q ∷ set) = ground (arith, any-insert_object o p set, object_eq_iff p q)

any-insert_all :
    (o : LfsObject) (set requested : List LfsObject)
    → any (object_eq o) (insert_all set requested)
      ≡ (any (object_eq o) set || any (object_eq o) requested)
any-insert_all o set [] = ground arith
any-insert_all o set (p ∷ requested) =
    ground (arith, any-insert_all o (insert_object p set) requested, any-insert_object o p set)

-- The set has just the requested objects.
pub any-unique_objects :
    (o : LfsObject) (requested : List LfsObject)
    → any (object_eq o) (unique_objects requested) ≡ any (object_eq o) requested
unfolding unique_objects
any-unique_objects o requested = any-insert_all o [] requested

pub get_outcome-insert_outcome {ℓ} :
    {T : Type ℓ} (o p : LfsObject) (x : T) (m : List (LfsObject × T))
    → get_outcome o (insert_outcome p x m) ≡ (if object_eq o p then some x else get_outcome o m)
unfolding get_outcome insert_outcome
get_outcome-insert_outcome o p x [] = refl
get_outcome-insert_outcome o p x ((q, y) ∷ m) = ground (
  arith,
  get_outcome-insert_outcome o p x m,
  object_eq_iff p q,
  object_eq_iff o q,
  object_eq_iff o p,
)
