-- ===== src/Lfs/Pointer/Records.antt =====
-- Extension records of a pointer, src/lfs.rs: what is stored is in the order of the priorities.
use lfs_cloud.Prelude.{
  ℕ, suc, ◌≤◌, ◌<◌, ◌≡◌, ◌≢◌, sym, ap, Bool, true, false, not, ◌&&◌, some, [], ◌∷◌, ◌==◌, any, ok,
  bind-eq-ok, arith, Bool-cases, Option-cases, Result-cases, ok_or-eq-ok, inl, inr, subst, ◌∙◌,
}
use lfs_cloud.Prelude.Text.{Text, text_eq, text_ltb, text_eq_iff, text_ltb_asym, strip_prefix}
use lfs_cloud.Prelude.BTreeMap.{BTreeMap}
use lfs_cloud.Prelude.BTreeMap
use native.Mathlib.Decide.{dec_lt}
use lfs_cloud.Lfs.Error.{pointer_invalid_extension_key}
use lfs_cloud.Lfs.Oid.{LfsOid, sha256_prefix, from_canonical_sha256_hex, as_pointer_oid}
use lfs_cloud.Lfs.Oid.Laws.{IsCanonical, from_canonical_sha256_hex_iff}
use lfs_cloud.Lfs.Pointer.Extension.{
  extension_priority, same_priority, checked_insert, insert_extension_record,
  normalize_extension_value,
}
use lfs_cloud.Lfs.Pointer.Extension.Keys.{text_ltb-keys}

-- The value is `sha256:` and a canonical digest.
abbrev pub IsPointerOid : Text → Type 0
IsPointerOid v = (o : LfsOid) × IsCanonical o × (v ≡ as_pointer_oid o)

-- Every key is valid, the priorities are at least `lo` and increase, and every value is an identifier.
abbrev pub Increasing : ℕ → BTreeMap Text → Type 0
Increasing lo [] = Unit
Increasing lo ((k, v) ∷ m) =
    (a : ℕ) × (extension_priority k ≡ some a) × (lo ≤ a) × IsPointerOid v × Increasing (suc a) m

abbrev clash : Text → ℕ → Text × Text → Bool
clash key priority e = not (text_eq e.0 key) && same_priority priority e.0

same_priority-some :
    (a b : ℕ) (k : Text) → extension_priority k ≡ some b → same_priority a k ≡ (b == a)
same_priority-some a b k h = rw (h, same_priority)

-- Keys with different priorities are ordered as their priorities are.
ordered :
    (j k : Text) (a b : ℕ)
    → extension_priority j ≡ some b
    → extension_priority k ≡ some a
    → text_ltb k j ≡ true
    → b ≢ a
    → a < b
ordered j k a b hj hk lt ne = elim (dec_lt a b) [
  | yes p ↦ p
  | no p ↦ absurd (ground (arith, text_ltb_asym k j lt, text_ltb-keys j k b a hj hk (omega arith)))
]

after_lt :
    (k j : Text) (a b : ℕ)
    → extension_priority k ≡ some a
    → extension_priority j ≡ some b
    → text_ltb k j ≡ false
    → b ≢ a
    → b < a
after_lt k j a b hk hj after ne = elim (dec_lt a b) [
  | yes p ↦ absurd (ground (arith, text_ltb-keys k j a b hk hj p))
  | no p ↦ omega arith
]

different :
    (k j : Text) (a b : ℕ) (w : Text) (m : BTreeMap Text)
    → extension_priority j ≡ some b
    → text_eq k j ≡ false
    → any (clash k a) ((j, w) ∷ m) ≡ false
    → b ≢ a
different k j a b w m hj other free e =
    ground (arith, same_priority-some a b j hj, text_eq_iff k j, text_eq_iff j k)

free_tail :
    (k : Text) (a : ℕ) (e : Text × Text) (m : BTreeMap Text)
    → any (clash k a) (e ∷ m) ≡ false
    → any (clash k a) m ≡ false
free_tail k a e m h = ground arith

some_eq : {a b : ℕ} → some a ≡ some b → a ≡ b
some_eq h = cc

Increasing-insert :
    (k v : Text) (a lo : ℕ) (m : BTreeMap Text)
    → extension_priority k ≡ some a
    → lo ≤ a
    → IsPointerOid v
    → any (clash k a) m ≡ false
    → Increasing lo m
    → Increasing lo (BTreeMap.insert k v m)
unfolding BTreeMap.insert
Increasing-insert k v a lo [] hk le hv free h = (a, hk, le, hv, tt)
Increasing-insert k v a lo ((j, w) ∷ m) hk le hv free (b, hj, lb, hw, rest) =
    elim (Bool-cases (text_eq k j)) [
      | inl same ↦
          let e : k ≡ j = (text_eq_iff k j).0 same in
          let p : a ≡ b = some_eq (sym hk ∙ ap extension_priority e ∙ hj) in
          rw same (a, hk, le, hv, subst (λ x. Increasing (suc x) m) (sym p) rest)
      | inr other ↦ elim (Bool-cases (text_ltb k j)) [
        | inl before ↦
            rw (other, before)
              (
                a,
                hk,
                le,
                hv,
                (
                  b,
                  hj,
                  ordered j k a b hj hk before (different k j a b w m hj other free),
                  hw,
                  rest,
                ),
              )
        | inr after ↦
            let ba : b < a = after_lt k j a b hk hj after (different k j a b w m hj other free) in
            rw (other, after)
              (
                b,
                hj,
                lb,
                hw,
                Increasing-insert k v a (suc b) m hk ba hv (free_tail k a (j, w) m free) rest,
              )
      ]
    ]

-- A record that is added keeps the records in order.
pub insert_extension_record-Increasing :
    (m m' : BTreeMap Text) (k v : Text)
    → insert_extension_record m k v ≡ ok m'
    → IsPointerOid v
    → Increasing 0 m
    → Increasing 0 m'
unfolding insert_extension_record
insert_extension_record-Increasing m m' k v h hv inc =
    let (a, found, rest) = bind-eq-ok _ (checked_insert m k v) h in
    let hk = ok_or-eq-ok (extension_priority k) (pointer_invalid_extension_key k) found in
    elim (Bool-cases (any (clash k a) m)) [
      | inl taken ↦ absurd (ground arith)
      | inr free ↦
          subst (Increasing 0) (ground arith)
            (Increasing-insert k v a 0 m hk (omega arith) hv free inc)
    ]

pub normalize_extension_value-IsPointerOid :
    (k v v' : Text) → normalize_extension_value k v ≡ ok v' → IsPointerOid v'
unfolding normalize_extension_value
normalize_extension_value-IsPointerOid k v v' h =
    elim (Option-cases (strip_prefix sha256_prefix v)) [
      | inl e ↦ absurd (ground arith)
      | inr (hex, e) ↦ elim (Result-cases (from_canonical_sha256_hex hex)) [
        | inl (o, accepted) ↦
            (o, ((from_canonical_sha256_hex_iff hex o).0 accepted).1, ground arith)
        | inr (x, refused) ↦ absurd (ground arith)
      ]
    ]
