-- ===== src/LocalCache/Objects/Places.antt =====
-- Where the files are that src/local_cache/garbage_collection.rs takes for cached objects.
use lfs_cloud.Prelude.{
  ℕ, ◌≡◌, refl, ap, subst, ◌⊎◌, inl, inr, Bool, true, false, Option, none, some, [], ◌∷◌, ◌++◌,
  List, ◌&&◌, if◌then◌else◌, and_then, and_then-eq-some, some-injective, Result, ok, err, ◌>>=◌,
  bind-eq-ok, ok-injective, Bool-cases, All, All-append,
}
use lfs_cloud.Prelude.Text.{Text, codes, text_eq_iff}
use lfs_cloud.Prelude.Utf8.{from_utf8}
use lfs_cloud.Prelude.Paths.{PathBuf, join, normal, parent, split_last, last_name}
use lfs_cloud.Lfs.Oid.{LfsOid}
use lfs_cloud.Lfs.Oid
use lfs_cloud.LocalCache.{object_shards}
use lfs_cloud.LocalCache.Disk.{DirEntry, ReadDir, no_directory, unreadable, entries, Disk}
use lfs_cloud.LocalCache.Pointers.{is_file}
use lfs_cloud.LocalCache.Objects.{
  LocalCacheGarbageCollectionObject, ok_of, is_text, is_named, is_dir, cache_object_from_entry,
  Cached, push_object, read_cache_entry, entry_is_kind, Visit, visit_entries, visit_object,
  shard_entries, visit_shard, collect_first_shards, collect_cache_object_files,
}
use lfs_cloud.Server.Staging.Body.{Bytes}

abbrev pub below : PathBuf → Bytes → PathBuf
below directory name = join directory (normal name ∷ [])

-- A file whose name `LfsOid::new` reads as an object, two directories below the objects, which are
-- named as the shards of that object. The name may differ from the canonical one.
pub record IsPlaced (objects_dir path : PathBuf) (oid : LfsOid) : Type 0 where
  pub first : Bytes
  pub second : Bytes
  pub name : Bytes
  pub spelling : Text
  pub place : path ≡ below (below (below objects_dir first) second) name
  pub first_shard : from_utf8 first ≡ some (object_shards oid.hex).0
  pub second_shard : from_utf8 second ≡ some (object_shards oid.hex).1
  pub spelled : from_utf8 name ≡ some spelling
  pub named : Oid.new spelling ≡ ok oid

below-append :
    (directory : PathBuf) (name : Bytes) → below directory name ≡ directory ++ normal name ∷ []
below-append [] name = refl
below-append (c ∷ directory) name = refl

split_last-append :
    (path : PathBuf) (name : Bytes)
    → split_last (path ++ normal name ∷ []) ≡ some (path, normal name)
unfolding split_last
split_last-append [] name = refl
split_last-append (c ∷ path) name = rw (split_last-append path name) refl

split_last-below :
    (path : PathBuf) (name : Bytes) → split_last (below path name) ≡ some (path, normal name)
split_last-below path name = rw (below-append path name) (split_last-append path name)

ok_of-eq-some : {E A : Type 0} (m : Result E A) {a : A} → ok_of m ≡ some a → m ≡ ok a
ok_of-eq-some (ok b) h = cc
ok_of-eq-some (err e) h = cc

parent-below : (path : PathBuf) (name : Bytes) → parent (below path name) ≡ some path
parent-below path name = rw (split_last-below path name) refl

last_name-below : (path : PathBuf) (name : Bytes) → last_name (below path name) ≡ some name
last_name-below path name = rw (split_last-below path name) refl

is_text-eq-some :
    (o : Option Text) (expected : Text) → is_text o expected ≡ true → o ≡ some expected
is_text-eq-some none expected h = absurd cc
is_text-eq-some (some name) expected h = ap some ((text_eq_iff name expected).0 h)

-- The name of a directory that is below another.
is_named_lem :
    (directory : Option PathBuf) (path : PathBuf) (name : Bytes) (expected : Text)
    → directory ≡ some (below path name)
    → is_named directory expected ≡ true
    → from_utf8 name ≡ some expected
is_named_lem directory path name expected e h = is_text-eq-some (from_utf8 name) expected (
    subst (λ o. is_text (and_then o from_utf8) expected ≡ true) (last_name-below path name)
      (subst (λ d. is_named d expected ≡ true) e h))

both_lem :
    {A : Type 0} (b c : Bool) (m : Option A) {a : A}
    → (if b && c then m else none) ≡ some a
    → (b ≡ true) × (c ≡ true) × (m ≡ some a)
both_lem true true m h = (refl, refl, h)
both_lem true false m h = absurd cc
both_lem false c m h = absurd cc

cache_object_from_entry-IsPlaced :
    (objects_dir : PathBuf) (first second : Bytes) (entry : DirEntry)
    (object : LocalCacheGarbageCollectionObject)
    → cache_object_from_entry (below (below (below objects_dir first) second) entry.name) entry
      ≡ some object
    → IsPlaced objects_dir object.path object.oid
unfolding cache_object_from_entry
cache_object_from_entry-IsPlaced objects_dir first second entry object h =
    let first_directory = below objects_dir first in
    let second_directory = below first_directory second in
    let path = below second_directory entry.name in
    let (spelling, spelled, h1) = and_then-eq-some (from_utf8 entry.name) _ h in
    let (oid, named, h2) = and_then-eq-some (ok_of (Oid.new spelling)) _ h1 in
    let sized : ℕ → LocalCacheGarbageCollectionObject =
      λ n. record { oid = oid; path = path; size_bytes = n } in
    let (one, two, h3) =
      both_lem (is_named (and_then (parent path) parent) (object_shards oid.hex).0)
        (is_named (parent path) (object_shards oid.hex).1) _ h2 in
    let (n, _, e) = and_then-eq-some entry.len (λ m. some (sized m)) h3 in
    let in_first : and_then (parent path) parent ≡ some first_directory =
      rw (parent-below second_directory entry.name) (parent-below first_directory second) in
    subst (λ o. IsPlaced objects_dir o.path o.oid) (some-injective e)
      (record {
        first = first;
        second = second;
        name = entry.name;
        spelling = spelling;
        place = refl;
        first_shard = is_named_lem _ objects_dir first _ in_first one;
        second_shard =
            is_named_lem _ first_directory second _ (parent-below second_directory entry.name) two;
        spelled = spelled;
        named = ok_of-eq-some (Oid.new spelling) named;
      })

abbrev AllPlaced : PathBuf → Cached → Type 0
AllPlaced objects_dir cached = All (λ o. IsPlaced objects_dir o.path o.oid) cached.0

-- A visit to an entry of a directory adds placed objects only.
abbrev KeepsPlaced : PathBuf → PathBuf → Visit → Type 0
KeepsPlaced objects_dir directory visit =
    (entry : DirEntry) (before after : Cached)
    → AllPlaced objects_dir before
    → visit (below directory entry.name) entry before ≡ ok after
    → AllPlaced objects_dir after

visit_entries-AllPlaced :
    (objects_dir directory : PathBuf) (visit : Visit)
    → KeepsPlaced objects_dir directory visit
    → (es : List (Result Text DirEntry)) (before after : Cached) → AllPlaced objects_dir before
    → visit_entries visit directory es before ≡ ok after
    → AllPlaced objects_dir after
unfolding visit_entries
visit_entries-AllPlaced objects_dir directory visit keeps [] before after placed e =
    subst (AllPlaced objects_dir) (ok-injective e) placed
visit_entries-AllPlaced objects_dir directory visit keeps (entry ∷ es) before after placed e =
    let (next, f, g) = bind-eq-ok (read_cache_entry entry directory >>= _) _ e in
    let (read, _, visited) = bind-eq-ok (read_cache_entry entry directory) _ f in
    visit_entries-AllPlaced objects_dir directory visit keeps es next after
      (keeps read before next placed visited) g

push_object-AllPlaced :
    (objects_dir path : PathBuf) (before : Cached)
    (object : Option LocalCacheGarbageCollectionObject)
    → ((o : LocalCacheGarbageCollectionObject)
        → object ≡ some o
        → IsPlaced objects_dir o.path o.oid)
    → AllPlaced objects_dir before
    → AllPlaced objects_dir (push_object path before object)
push_object-AllPlaced objects_dir path before none placed all_ = all_
push_object-AllPlaced objects_dir path before (some o) placed all_ =
    All-append (λ o. IsPlaced objects_dir o.path o.oid) before.0 (o ∷ []) all_ (placed o refl, tt)

visit_object-KeepsPlaced :
    (objects_dir : PathBuf) (first second : Bytes)
    → KeepsPlaced objects_dir (below (below objects_dir first) second) visit_object
unfolding visit_object
visit_object-KeepsPlaced objects_dir first second entry before after placed e =
    let path = below (below (below objects_dir first) second) entry.name in
    let (is_object, _, f) =
      bind-eq-ok (entry_is_kind entry path (codes "cache object path") is_file) _ e in
    subst (AllPlaced objects_dir) (ok-injective f) (elim (Bool-cases is_object) [
      | inl g ↦ rw g (
          push_object-AllPlaced objects_dir path before (cache_object_from_entry path entry)
            (cache_object_from_entry-IsPlaced objects_dir first second entry) placed)
      | inr g ↦ rw g placed
    ])

branch-eq-ok :
    {E A : Type 0} (b : Bool) (m n : Result E A) {a : A}
    → (if b then m else n) ≡ ok a
    → (m ≡ ok a) ⊎ (n ≡ ok a)
branch-eq-ok true m n h = inl h
branch-eq-ok false m n h = inr h

module _ (disk : Disk) where
  visit_shard-KeepsPlaced :
      (objects_dir directory : PathBuf) (label : Text) (visit : Visit)
      → ((name : Bytes) → KeepsPlaced objects_dir (below directory name) visit)
      → KeepsPlaced objects_dir directory (visit_shard disk label visit)
  visit_shard-KeepsPlaced objects_dir directory label visit keeps entry before after placed e =
      let path = below directory entry.name in
      let (is_shard, _, f) = bind-eq-ok (entry_is_kind entry path label is_dir) _ e in
      elim (branch-eq-ok is_shard _ _ f) [
        | inl listed ↦
            let (es, _, visited) = bind-eq-ok (shard_entries path (disk.read_dir path)) _ listed in
            visit_entries-AllPlaced objects_dir path visit (keeps entry.name) es before after placed
              visited
        | inr skipped ↦ subst (AllPlaced objects_dir) (ok-injective skipped) placed
      ]

  collect_first_shards-AllPlaced :
      (objects_dir : PathBuf) (listing : ReadDir) (cached : Cached)
      → collect_first_shards disk objects_dir listing ≡ ok cached
      → AllPlaced objects_dir cached
  collect_first_shards-AllPlaced objects_dir (no_directory source) cached e =
      subst (AllPlaced objects_dir) (ok-injective e) tt
  collect_first_shards-AllPlaced objects_dir (unreadable source) cached e = absurd cc
  collect_first_shards-AllPlaced objects_dir (entries es) cached e =
      visit_entries-AllPlaced objects_dir objects_dir _
        (visit_shard-KeepsPlaced objects_dir objects_dir (codes "first-level cache shard") _
          (λ first.
            visit_shard-KeepsPlaced objects_dir (below objects_dir first)
              (codes "second-level cache shard") _
              (λ second. visit_object-KeepsPlaced objects_dir first second)))
        es ([], []) cached tt e

  pub collect_cache_object_files-AllPlaced :
      (objects_dir : PathBuf) (cached : Cached)
      → collect_cache_object_files disk objects_dir ≡ ok cached
      → AllPlaced objects_dir cached
  unfolding collect_cache_object_files
  collect_cache_object_files-AllPlaced objects_dir cached e =
      collect_first_shards-AllPlaced objects_dir (disk.read_dir objects_dir) cached e
