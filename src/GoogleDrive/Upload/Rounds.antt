-- ===== src/GoogleDrive/Upload/Rounds.antt =====
-- That the upload of src/google_drive/object_store.rs ends, and what it sends until then.
use lfs_cloud.Prelude.{
  ℕ, zero, suc, ◌+◌, ◌-◌, ◌*◌, ◌≤◌, ◌<◌, ◌≡◌, refl, inl, inr, none, some, [], ◌∷◌, List, ltb, ◌==◌,
  take, drop, length, Result, ok, err, Bool-cases, Option-cases, arith,
}
use lfs_cloud.Errors.{StorageError}
use lfs_cloud.Server.Staging.Body.{Bytes}
use lfs_cloud.Server.Batch.Lookup.{StoredObject}
use lfs_cloud.GoogleDrive.Upload.{
  Upload, complete, incomplete, max_recovery_attempts, Attempted, send_chunk, Chunk, chunk_len,
  Uploaded, after_chunk, go_on, upload_from, upload_verified_object,
}
use lfs_cloud.GoogleDrive.Upload.Offsets.{IsOffset, IsStored, Within, send_chunk-Within}

module _ (upload : Upload) where
  -- The chunks are what the object has at their offsets, and the offsets do not go back.
  abbrev pub AreSlices : ℕ → List Chunk → Type 0
  AreSlices start [] = Unit
  AreSlices start ((offset, bytes) ∷ chunks) =
      (start ≤ offset)
      × (offset ≤ upload.key.object.size)
      × (bytes ≡ take (chunk_len upload.key.object.size offset) (drop offset upload.contents))
      × AreSlices offset chunks

  abbrev pub IsResult : Result StorageError StoredObject → Type 0
  IsResult (err e) = Unit
  IsResult (ok stored) = IsStored upload stored

  -- There is a result, after at most so many chunks.
  abbrev pub Ends : ℕ → ℕ → Uploaded → Type 0
  Ends rounds start none = ⊥
  Ends rounds start (some (result, chunks)) =
      (length chunks ≤ rounds) × AreSlices start chunks × IsResult result

  -- Five rounds for each byte that is left, and one for each attempt.
  abbrev pub measure : ℕ → ℕ → ℕ
  measure offset left = (upload.key.object.size - offset) * 5 + left

  earlier-AreSlices :
      (start next : ℕ) (chunks : List Chunk)
      → start ≤ next
      → AreSlices next chunks
      → AreSlices start chunks
  earlier-AreSlices start next [] h s = tt
  earlier-AreSlices start next ((offset, bytes) ∷ chunks) h (l, t, b, s) =
      (omega (arith, l), t, b, s)

  after_chunk-Ends :
      (rounds offset next : ℕ) (bytes : Bytes) (u : Uploaded)
      → offset ≤ next
      → offset ≤ upload.key.object.size
      → bytes ≡ take (chunk_len upload.key.object.size offset) (drop offset upload.contents)
      → Ends rounds next u
      → Ends (suc rounds) offset (after_chunk (offset, bytes) u)
  after_chunk-Ends rounds offset next bytes none h t b e = e
  after_chunk-Ends rounds offset next bytes (some (result, chunks)) h t b (l, s, r) =
      (omega (arith, l), (omega arith, t, b, earlier-AreSlices offset next chunks h s), r)

  module _ (rounds offset left : ℕ) (bytes : Bytes) (continue : ℕ → ℕ → ℕ → Uploaded)
      (from : IsOffset upload.key.object.size offset)
      (slice : bytes ≡ take (chunk_len upload.key.object.size offset) (drop offset upload.contents))
      (attempts : left ≤ max_recovery_attempts)
      (continues : (next l j : ℕ)
        → measure next l < measure offset left
        → IsOffset upload.key.object.size next
        → l ≤ max_recovery_attempts
        → Ends rounds next (continue next l j)) where
    in_file : offset ≤ upload.key.object.size
    in_file = elim from [ inl e ↦ omega (arith, e) | inr h ↦ omega (arith, h) ]

    last_chunk : {R : Type 0} → R → (1 ≤ suc rounds) × AreSlices offset ((offset, bytes) ∷ []) × R
    last_chunk r = (omega arith, (omega arith, in_file, slice, tt), r)

    go_on-Ends :
        (a : Attempted)
        → Within upload left a
        → Ends (suc rounds) offset (go_on upload.provider (offset, bytes) offset continue a)
    go_on-Ends (err e, l, i) w = last_chunk tt
    go_on-Ends (ok (complete stored), l, i) (stored_by, fewer) = last_chunk stored_by
    go_on-Ends (ok (incomplete next), l, i) (place, fewer) = elim (Bool-cases (ltb next offset)) [
      | inl e ↦ rw e (last_chunk tt)
      | inr e ↦ elim (Bool-cases (ltb offset next)) [
        | inl f ↦
            let ahead : offset < next = ground arith in
            let rest : next < upload.key.object.size = elim place [
              | inl g ↦ absurd (omega (arith, g))
              | inr g ↦ g
            ] in
            rw (e, f)
              (after_chunk-Ends rounds offset next bytes (continue next max_recovery_attempts i)
                (omega arith) in_file slice
                (continues next max_recovery_attempts i (omega arith) place (omega arith)))
        | inr f ↦ elim (Bool-cases (l == 0)) [
          | inl g ↦ rw (e, f, g) (last_chunk tt)
          | inr g ↦
              let some_left : 0 < l = ground arith in
              rw (e, f, g)
                (after_chunk-Ends rounds offset offset bytes (continue offset (l - 1) i)
                  (omega arith) in_file slice
                  (continues offset (l - 1) i (omega arith) from (omega arith)))
        ]
      ]
    ]

  upload_from-Ends :
      (fuel offset left i : ℕ)
      → IsOffset upload.key.object.size offset
      → left ≤ max_recovery_attempts
      → measure offset left < fuel
      → Ends fuel offset (upload_from upload fuel offset left i)
  unfolding upload_from
  upload_from-Ends zero offset left i from attempts enough = absurd (omega arith)
  upload_from-Ends (suc fuel) offset left i from attempts enough =
      let n = chunk_len upload.key.object.size offset in
      elim (Option-cases (upload.reads i)) [
        | inr (e, failed) ↦ rw (failed, upload_from) (omega arith, tt, tt)
        | inl read ↦
            rw (read, upload_from)
              (go_on-Ends fuel offset left (take n (drop offset upload.contents))
                (λ next l j. upload_from upload fuel next l j) from refl attempts
                (λ next l j fewer place few. upload_from-Ends fuel next l j place few (omega arith))
                (send_chunk upload (offset + n) left i)
                (send_chunk-Within upload (offset + n) left i))
      ]

  -- With fuel for five rounds for each byte of the object and five more, the upload ends, whatever
  -- Drive answers and whichever reads fail. It sends no more chunks than there is fuel, these are
  -- slices of the object at offsets that do not go back, and it succeeds only with a file that passes
  -- the verification.
  pub upload_verified_object-Ends :
      (fuel : ℕ)
      → upload.key.object.size * 5 + 4 < fuel
      → Ends fuel 0 (upload_verified_object upload fuel)
  unfolding upload_verified_object
  upload_verified_object-Ends fuel enough =
      upload_from-Ends fuel 0 4 0 (inl refl) (omega arith) (omega arith)
