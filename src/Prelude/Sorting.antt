-- ===== src/Prelude/Sorting.antt =====
-- `sort_by` and `dedup` of Rust's slices. The sort is stable, so that any stable sort gives its result.
use mathlib.Core.Logic.{inl, inr}
use mathlib.Core.Bool.{Bool}
use mathlib.Core.List.{List, [], ◌∷◌, Memᴰ}
use lfs_cloud.Prelude.Lists.{All}
use lfs_cloud.Prelude.Tests.{if◌then◌else◌, Bool-cases}

module _ {ℓ} {A : Type ℓ} where
  unfoldable pub insert_sorted : (A → A → Bool) → A → List A → List A
  insert_sorted less x [] = x ∷ []
  insert_sorted less x (y ∷ ys) =
      let rest = insert_sorted less x ys in if less y x then y ∷ rest else x ∷ y ∷ ys

  unfoldable pub sort_by : (A → A → Bool) → List A → List A
  sort_by less [] = []
  sort_by less (x ∷ xs) = insert_sorted less x (sort_by less xs)

  abbrev dedup_from : (A → A → Bool) → A → List A → List A
  dedup_from eq x [] = x ∷ []
  dedup_from eq x (y ∷ ys) = if eq x y then y ∷ ys else x ∷ y ∷ ys

  -- Equal neighbours become one.
  unfoldable pub dedup : (A → A → Bool) → List A → List A
  dedup eq [] = []
  dedup eq (x ∷ xs) = dedup_from eq x (dedup eq xs)

  insert_sorted-Mem :
      (less : A → A → Bool) (x y : A) (xs : List A)
      → Memᴰ y (insert_sorted less x xs)
      → Memᴰ y (x ∷ xs)
  unfolding insert_sorted
  insert_sorted-Mem less x y [] = λ m. m
  insert_sorted-Mem less x y (z ∷ zs) = elim (Bool-cases (less z x)) [
    | inr e ↦ rw e (λ m. m)
    | inl e ↦ rw e (λ m. elim m [
      | Memᴰ.head h ↦ Memᴰ.tail (Memᴰ.head h)
      | Memᴰ.tail n ↦ elim (insert_sorted-Mem less x y zs n) [
        | Memᴰ.head h ↦ Memᴰ.head h
        | Memᴰ.tail k ↦ Memᴰ.tail (Memᴰ.tail k)
      ]
    ])
  ]

  pub sort_by-Mem :
      (less : A → A → Bool) (y : A) (xs : List A) → Memᴰ y (sort_by less xs) → Memᴰ y xs
  unfolding sort_by
  sort_by-Mem less y [] m = m
  sort_by-Mem less y (x ∷ xs) m = elim (insert_sorted-Mem less x y (sort_by less xs) m) [
    | Memᴰ.head h ↦ Memᴰ.head h
    | Memᴰ.tail n ↦ Memᴰ.tail (sort_by-Mem less y xs n)
  ]

  pub insert_sorted-All :
      (P : A → Type ℓ) (less : A → A → Bool) (x : A) (xs : List A)
      → P x
      → All P xs
      → All P (insert_sorted less x xs)
  unfolding insert_sorted
  insert_sorted-All P less x [] p ps = (p, tt)
  insert_sorted-All P less x (y ∷ ys) p (q, ps) = elim (Bool-cases (less y x)) [
    | inl e ↦ rw e (q, insert_sorted-All P less x ys p ps)
    | inr e ↦ rw e (p, (q, ps))
  ]

  pub sort_by-All :
      (P : A → Type ℓ) (less : A → A → Bool) (xs : List A) → All P xs → All P (sort_by less xs)
  unfolding sort_by
  sort_by-All P less [] ps = tt
  sort_by-All P less (x ∷ xs) (p, ps) =
      insert_sorted-All P less x (sort_by less xs) p (sort_by-All P less xs ps)

  insert_sorted_keeps :
      (less : A → A → Bool) (x y : A) (xs : List A)
      → Memᴰ y (x ∷ xs)
      → Memᴰ y (insert_sorted less x xs)
  unfolding insert_sorted
  insert_sorted_keeps less x y [] = λ m. m
  insert_sorted_keeps less x y (z ∷ zs) = elim (Bool-cases (less z x)) [
    | inr e ↦ rw e (λ m. m)
    | inl e ↦ rw e (λ m. elim m [
      | Memᴰ.head h ↦ Memᴰ.tail (insert_sorted_keeps less x y zs (Memᴰ.head h))
      | Memᴰ.tail n ↦ elim n [
        | Memᴰ.head h ↦ Memᴰ.head h
        | Memᴰ.tail k ↦ Memᴰ.tail (insert_sorted_keeps less x y zs (Memᴰ.tail k))
      ]
    ])
  ]

  pub sort_by_keeps :
      (less : A → A → Bool) (y : A) (xs : List A) → Memᴰ y xs → Memᴰ y (sort_by less xs)
  unfolding sort_by
  sort_by_keeps less y [] m = m
  sort_by_keeps less y (x ∷ xs) m =
      insert_sorted_keeps less x y (sort_by less xs)
        (elim m [ Memᴰ.head h ↦ Memᴰ.head h | Memᴰ.tail n ↦ Memᴰ.tail (sort_by_keeps less y xs n) ])
