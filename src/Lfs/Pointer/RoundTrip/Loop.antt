-- ===== src/Lfs/Pointer/RoundTrip/Loop.antt =====
-- The loop of `LfsPointer::parse` over the lines of a rendered pointer.
use mathlib.Core.List.{append_assoc}
use lfs_cloud.Prelude.{
  ℕ, suc, ◌≤◌, ◌<◌, ◌≡◌, refl, false, not, ◌&&◌, Option, none, some, [], ◌∷◌, ◌++◌, List, map, any,
  All, All-append, ok, arith, append-nil,
}
use lfs_cloud.Prelude.Text.{Text, codes, text_eq, text_ltb}
use lfs_cloud.Prelude.Text.Split.{strip_prefix-append, split_once-append}
use lfs_cloud.Prelude.Decimal.{u64_bound, to_string, from_str-to_string}
use lfs_cloud.Prelude.BTreeMap.{BTreeMap, insert-last}
use lfs_cloud.Prelude.BTreeMap
use lfs_cloud.Lfs.Oid.{LfsOid, sha256_prefix, as_pointer_oid}
use lfs_cloud.Lfs.Oid.Laws.{IsCanonical, from_canonical_sha256_hex_iff}
use lfs_cloud.Lfs.Pointer.Extension.{
  extension_priority, same_priority, is_valid_extension_key, insert_extension_record,
  normalize_extension_value,
}
use lfs_cloud.Lfs.Pointer.Extension.Keys.{text_ltb-keys, no_whitespace-key, BeforeCore-key}
use lfs_cloud.Lfs.Pointer.{
  Fields, parse_pointer_oid, parse_field, read_oid, read_size, size_or_error, out_of_order,
  read_extension, parse_line, parse_fields,
}
use lfs_cloud.Lfs.Pointer.Records.{Increasing}
use lfs_cloud.Lfs.Pointer.RoundTrip.Lacks.{lacks-any, no_whitespace_lacks, pointer_oid_lacks}

abbrev pub field_line : Text × Text → Text
field_line e = e.0 ++ b' ' ∷ e.1

-- Every priority in the map is below `hi`.
abbrev Below : ℕ → BTreeMap Text → Type 0
Below hi = All (λ (e : Text × Text). ((b : ℕ) × (extension_priority e.0 ≡ some b) × (b < hi)))

-- What `previous_key` holds before the records of priority at least `lo`.
abbrev PreviousOk : ℕ → Option Text → Type 0
PreviousOk lo none = Unit
PreviousOk lo (some k) = (b : ℕ) × (extension_priority k ≡ some b) × (b < lo)

normalize_extension_value-canonical :
    (k : Text) (o : LfsOid)
    → IsCanonical o
    → normalize_extension_value k (as_pointer_oid o) ≡ ok (as_pointer_oid o)
unfolding normalize_extension_value as_pointer_oid
normalize_extension_value-canonical k o c = ground (
  arith,
  lacks-any 0xd (as_pointer_oid o) (pointer_oid_lacks 0xd o (omega arith) c),
  lacks-any 0xa (as_pointer_oid o) (pointer_oid_lacks 0xa o (omega arith) c),
  strip_prefix-append sha256_prefix o.hex,
  (from_canonical_sha256_hex_iff o.hex o).1 (refl, c),
)

parse_pointer_oid-canonical :
    (o : LfsOid) → IsCanonical o → parse_pointer_oid (as_pointer_oid o) ≡ ok o
unfolding parse_pointer_oid as_pointer_oid
parse_pointer_oid-canonical o c =
    rw (strip_prefix-append sha256_prefix o.hex)
      ((from_canonical_sha256_hex_iff o.hex o).1 (refl, c))

Below-free :
    (k : Text) (a : ℕ) (m : BTreeMap Text)
    → Below a m
    → any (λ (e : Text × Text). not (text_eq e.0 k) && same_priority a e.0) m ≡ false
Below-free k a [] h = refl
Below-free k a (e ∷ m) ((b, hb, lt), h) = ground (arith, Below-free k a m h)

Below-Above :
    (k : Text) (a : ℕ) (m : BTreeMap Text)
    → extension_priority k ≡ some a
    → Below a m
    → BTreeMap.Above k m
Below-Above k a [] hk h = tt
Below-Above k a (e ∷ m) hk ((b, hb, lt), h) =
    (text_ltb-keys e.0 k b a hb hk lt, Below-Above k a m hk h)

insert_extension_record-last :
    (m : BTreeMap Text) (k v : Text) (a : ℕ)
    → extension_priority k ≡ some a
    → Below a m
    → insert_extension_record m k v ≡ ok (m ++ (k, v) ∷ [])
unfolding insert_extension_record
insert_extension_record-last m k v a hk h =
    rw (hk, Below-free k a m h, insert-last k v m (Below-Above k a m hk h))

Below-mono : (a b : ℕ) (m : BTreeMap Text) → a ≤ b → Below a m → Below b m
Below-mono a b [] le h = tt
Below-mono a b (e ∷ m) le ((c, hc, lt), h) = ((c, hc, omega arith), Below-mono a b m le h)

in_order :
    (lo a : ℕ) (previous : Option Text) (k : Text)
    → PreviousOk lo previous
    → lo ≤ a
    → extension_priority k ≡ some a
    → out_of_order previous k ≡ false
in_order lo a none k h le hk = refl
in_order lo a (some j) k (b, hb, lt) le hk = rw (text_ltb-keys j k b a hb hk (omega arith))

-- The loop reads one extension record.
parse_line-extension :
    (s : Fields) (k : Text) (o : LfsOid) (a lo : ℕ)
    → extension_priority k ≡ some a
    → IsCanonical o
    → lo ≤ a
    → Below lo s.extensions
    → PreviousOk lo s.previous_key
    → parse_line (field_line (k, as_pointer_oid o)) s
      ≡ ok (record s {
        previous_key = some k;
        extensions = s.extensions ++ (k, as_pointer_oid o) ∷ [];
      })
unfolding parse_line parse_field read_extension is_valid_extension_key
parse_line-extension s k o a lo hk c le below prev =
    let core = BeforeCore-key k a hk in
    rw (
      split_once-append b' ' k (as_pointer_oid o)
          (no_whitespace_lacks k (no_whitespace-key k a hk)).0,
      in_order lo a s.previous_key k prev le hk,
      core.ne_oid,
      core.ne_size,
      hk,
      normalize_extension_value-canonical k o c,
      insert_extension_record-last s.extensions k (as_pointer_oid o) a hk
          (Below-mono lo a s.extensions le below),
    )

before_oid :
    (lo : ℕ) (previous : Option Text)
    → PreviousOk lo previous
    → out_of_order previous (codes "oid") ≡ false
before_oid lo none h = refl
before_oid lo (some j) (b, hb, lt) = rw ((BeforeCore-key j b hb).lt_oid)

unfoldable pub oid_line : LfsOid → Text
oid_line o = field_line (codes "oid", as_pointer_oid o)

unfoldable pub size_line : ℕ → Text
size_line n = field_line (codes "size", to_string n)

parse_line-oid :
    (s : Fields) (o : LfsOid)
    → IsCanonical o
    → out_of_order s.previous_key (codes "oid") ≡ false
    → parse_line (oid_line o) s ≡ ok (record s { previous_key = some (codes "oid"); oid = some o })
unfolding parse_line parse_field read_oid oid_line text_eq
parse_line-oid s o c before = rw (
  split_once-append b' ' (codes "oid") (as_pointer_oid o) refl,
  before,
  parse_pointer_oid-canonical o c,
)

size_or_error-to_string : (n : ℕ) → n < u64_bound → size_or_error (to_string n) ≡ ok n
unfolding size_or_error
size_or_error-to_string n h = ground (arith, from_str-to_string n h)

parse_line-size :
    (s : Fields) (n : ℕ)
    → n < u64_bound
    → s.previous_key ≡ some (codes "oid")
    → parse_line (size_line n) s
      ≡ ok (record s { previous_key = some (codes "size"); size = some n })
unfolding parse_line parse_field read_size size_line text_eq text_ltb
parse_line-size s n h before =
    rw (
      split_once-append b' ' (codes "size") (to_string n) refl,
      before,
      size_or_error-to_string n h,
    )

unfoldable pub record_lines : BTreeMap Text → List Text
record_lines m = map field_line m

pub parse_fields-records :
    (m : BTreeMap Text) (s : Fields) (o : LfsOid) (n lo : ℕ)
    → Increasing lo m
    → IsCanonical o
    → n < u64_bound
    → Below lo s.extensions
    → PreviousOk lo s.previous_key
    → parse_fields (record_lines m ++ oid_line o ∷ size_line n ∷ []) s
      ≡ ok (record {
        previous_key = some (codes "size");
        extensions = s.extensions ++ m;
        oid = some o;
        size = some n;
      })
unfolding parse_fields record_lines
parse_fields-records [] s o n lo inc c h below prev =
    rw (parse_line-oid s o c (before_oid lo s.previous_key prev)) (
      rw (
        parse_line-size (record s { previous_key = some (codes "oid"); oid = some o }) n h refl,
        append-nil,
      ))
parse_fields-records ((k, v) ∷ m) s o n lo (a, hk, le, (w, cw, e), inc) c h below prev =
    rw (e, parse_line-extension s k w a lo hk cw le below prev)
      (rw (
        parse_fields-records m
            (record s {
              previous_key = some k;
              extensions = s.extensions ++ (k, as_pointer_oid w) ∷ [];
            })
            o n (suc a) inc c h
            (All-append
              (λ (x : Text × Text). ((b : ℕ) × (extension_priority x.0 ≡ some b) × (b < suc a)))
              s.extensions ((k, as_pointer_oid w) ∷ [])
              (Below-mono lo (suc a) s.extensions (omega arith) below) ((a, hk, omega arith), tt))
            (a, hk, omega arith),
        append_assoc,
      ))
