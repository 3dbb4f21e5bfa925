-- ===== src/Lfs/Pointer/Extension/Keys.antt =====
-- The shape of a valid extension key, and the order of keys by their priorities.
use lfs_cloud.Prelude.{
  ℕ, ◌+◌, ◌≤◌, ◌<◌, ◌≡◌, refl, true, false, some, [], ◌∷◌, ◌++◌, and_then-eq-some, any, arith,
}
use lfs_cloud.Prelude.Text.{
  Text, codes, len, text_eq, text_ltb, strip_prefix, split_once, is_ascii_whitespace,
}
use lfs_cloud.Prelude.Text.Split.{strip_prefix-eq-some, split_once-eq-some}
use lfs_cloud.Lfs.Pointer.Extension.{priority_digit, priority_of, extension_priority}

pub record KeyShape (key : Text) (priority : ℕ) : Type 0 where
  pub name : Text
  pub shape : key ≡ codes "ext-" ++ (48 + priority) ∷ b'-' ∷ name
  pub digit : priority ≤ 9
  pub no_whitespace : any is_ascii_whitespace name ≡ false

len_one : (c : ℕ) (s : Text) → len (c ∷ s) ≡ 1 → s ≡ []
unfolding len
len_one c [] h = refl
len_one c (d ∷ s) h = absurd (ground arith)

priority_digit-shape :
    (s : Text) (a : ℕ) → len s ≡ 1 → priority_digit s ≡ some a → (s ≡ (48 + a) ∷ []) × (a ≤ 9)
priority_digit-shape [] a h k = cc
priority_digit-shape (c ∷ s) a h k = ground (arith, len_one c s)

priority_of-shape :
    (priority name : Text) (a : ℕ)
    → priority_of priority name ≡ some a
    → (priority ≡ (48 + a) ∷ []) × (a ≤ 9) × (any is_ascii_whitespace name ≡ false)
unfolding priority_of
priority_of-shape priority name a h = ground (arith, priority_digit-shape priority a)

-- A key with a priority is `ext-N-NAME`.
pub extension_priority-shape :
    (key : Text) (a : ℕ) → extension_priority key ≡ some a → KeyShape key a
unfolding extension_priority
extension_priority-shape key a h =
    let (ext, stripped, h1) = and_then-eq-some (strip_prefix (codes "ext-") key) _ h in
    let (p, split, h2) = and_then-eq-some (split_once b'-' ext) _ h1 in
    let (digit, bound, clean) = priority_of-shape p.0 p.1 a h2 in
    record {
      name = p.1;
      shape = cc (
        strip_prefix-eq-some (codes "ext-") key ext stripped,
        (split_once-eq-some b'-' ext p.0 p.1 split).0,
        digit,
      );
      digit = bound;
      no_whitespace = clean;
    }

-- No white space in a valid key.
pub no_whitespace-key :
    (key : Text) (a : ℕ) → extension_priority key ≡ some a → any is_ascii_whitespace key ≡ false
no_whitespace-key key a h =
    let k = extension_priority-shape key a h in
    rw k.shape (tail k.name (48 + a) (omega (arith, k.digit)) k.no_whitespace)
  where
    tail :
        (name : Text) (d : ℕ)
        → (48 ≤ d) × (d ≤ 57)
        → any is_ascii_whitespace name ≡ false
        → any is_ascii_whitespace (codes "ext-" ++ d ∷ b'-' ∷ name) ≡ false
    tail name d r n = ground arith

-- Keys of smaller priority come first.
pub text_ltb-keys :
    (j k : Text) (a b : ℕ)
    → extension_priority j ≡ some a
    → extension_priority k ≡ some b
    → a < b
    → text_ltb j k ≡ true
unfolding text_ltb
text_ltb-keys j k a b hj hk lt =
    let sj = extension_priority-shape j a hj in
    let sk = extension_priority-shape k b hk in rw (sj.shape, sk.shape) (digits sj.name sk.name)
  where
    digits :
        (s t : Text)
        → text_ltb (codes "ext-" ++ (48 + a) ∷ b'-' ∷ s) (codes "ext-" ++ (48 + b) ∷ b'-' ∷ t)
          ≡ true
    digits s t = ground arith

-- Every extension key comes before `oid` and `size`, and is neither.
pub record BeforeCore (key : Text) : Type 0 where
  pub lt_oid : text_ltb key (codes "oid") ≡ true
  pub lt_size : text_ltb key (codes "size") ≡ true
  pub ne_oid : text_eq key (codes "oid") ≡ false
  pub ne_size : text_eq key (codes "size") ≡ false

pub BeforeCore-key : (key : Text) (a : ℕ) → extension_priority key ≡ some a → BeforeCore key
unfolding text_ltb text_eq
BeforeCore-key key a h =
    let k = extension_priority-shape key a h in
    rw k.shape (record { lt_oid = refl; lt_size = refl; ne_oid = refl; ne_size = refl })
