-- ===== src/Lfs/Pointer/RoundTrip/Body.antt =====
-- The lines of a rendered pointer file, as `lines` and the filter of blank lines find them.
use lfs_cloud.Prelude.{
  ℕ, suc, ◌<◌, ◌≡◌, refl, Bool, true, false, not, some, [], ◌∷◌, ◌++◌, ◌==◌, all, arith,
}
use lfs_cloud.Prelude.Text.{Text, codes, is_digit, is_whitespace}
use lfs_cloud.Prelude.Text.Trim.{solid, is_empty-trim_head, all-imp}
use lfs_cloud.Prelude.Text.Split.{lacks}
use lfs_cloud.Prelude.Text.Lines.{lines, is_line, lines-cons, lines-nil}
use lfs_cloud.Prelude.Decimal.{to_string, all_digits-to_string}
use lfs_cloud.Prelude.BTreeMap.{BTreeMap}
use lfs_cloud.Lfs.Oid.{LfsOid, as_pointer_oid}
use lfs_cloud.Lfs.Oid.Laws.{IsCanonical}
use lfs_cloud.Lfs.Pointer.Extension.{extension_priority}
use lfs_cloud.Lfs.Pointer.Extension.Keys.{no_whitespace-key, extension_priority-shape}
use lfs_cloud.Lfs.Pointer.{drop_blank, render_fields}
use lfs_cloud.Lfs.Pointer.Records.{Increasing}
use lfs_cloud.Lfs.Pointer.RoundTrip.Lacks.{no_whitespace_lacks, is_line-append, is_line-pointer_oid}
use lfs_cloud.Lfs.Pointer.RoundTrip.Loop.{field_line, oid_line, size_line, record_lines}

is_line-key : (k : Text) (a : ℕ) → extension_priority k ≡ some a → is_line k ≡ true
is_line-key k a h = (no_whitespace_lacks k (no_whitespace-key k a h)).1

is_line-field :
    (k v : Text) → is_line k ≡ true → is_line v ≡ true → is_line (field_line (k, v)) ≡ true
is_line-field k v h g = is_line-append k (b' ' ∷ v) h (ground arith)

digits_lacks : (d : ℕ) (s : Text) → d < 48 → all is_digit s ≡ true → lacks d s ≡ true
digits_lacks d s h k = all-imp is_digit (λ c. not (c == d)) s (λ c e. ground arith) k

is_line-to_string : (n : ℕ) → is_line (to_string n) ≡ true
is_line-to_string n =
    let digits = all_digits-to_string n in
    ground (
      arith,
      digits_lacks 0xa (to_string n) (omega arith) digits,
      digits_lacks 0xd (to_string n) (omega arith) digits,
    )

abbrev head_solid : Text → Bool
head_solid [] = false
head_solid (c ∷ line) = solid c

-- A line that does not begin with white space goes through the filter.
pub drop_blank-cons :
    (line rest : Text)
    → head_solid line ≡ true
    → is_line line ≡ true
    → drop_blank (lines (line ++ 0xa ∷ rest)) ≡ line ∷ drop_blank (lines rest)
unfolding drop_blank
drop_blank-cons [] rest h l = cc
drop_blank-cons (c ∷ line) rest h l = rw (lines-cons (c ∷ line) rest l, is_empty-trim_head c line h)

drop_blank-end : drop_blank (lines []) ≡ []
unfolding drop_blank
drop_blank-end = rw lines-nil

head_solid-key :
    (k v : Text) (a : ℕ) → extension_priority k ≡ some a → head_solid (field_line (k, v)) ≡ true
unfolding is_whitespace
head_solid-key k v a h = let shape = extension_priority-shape k a h in rw shape.shape

unfoldable pub core_entries : LfsOid → ℕ → BTreeMap Text
core_entries o n = (codes "oid", as_pointer_oid o) ∷ (codes "size", to_string n) ∷ []

drop_blank-core :
    (o : LfsOid) (n : ℕ)
    → IsCanonical o
    → drop_blank (lines (render_fields (core_entries o n))) ≡ oid_line o ∷ size_line n ∷ []
unfolding render_fields core_entries oid_line size_line is_whitespace
drop_blank-core o n c = rw (
  drop_blank-cons (oid_line o) (size_line n ++ 0xa ∷ []) refl
      (is_line-field (codes "oid") (as_pointer_oid o) refl (is_line-pointer_oid o c)),
  drop_blank-cons (size_line n) [] refl
      (is_line-field (codes "size") (to_string n) refl (is_line-to_string n)),
  drop_blank-end,
)

pub drop_blank-records :
    (m : BTreeMap Text) (o : LfsOid) (n lo : ℕ)
    → Increasing lo m
    → IsCanonical o
    → drop_blank (lines (render_fields (m ++ core_entries o n)))
      ≡ record_lines m ++ oid_line o ∷ size_line n ∷ []
unfolding record_lines render_fields
drop_blank-records [] o n lo inc c = drop_blank-core o n c
drop_blank-records ((k, v) ∷ m) o n lo (a, hk, le, (w, cw, e), inc) c = rw (
  drop_blank-cons (field_line (k, v)) (render_fields (m ++ core_entries o n))
      (head_solid-key k v a hk)
      (is_line-field k v (is_line-key k a hk) (rw e (is_line-pointer_oid w cw))),
  drop_blank-records m o n (suc a) inc c,
)
