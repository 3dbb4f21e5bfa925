-- ===== src/Lfs/Oid/Laws.antt =====
-- What validation of an object identifier accepts, and that canonical ones survive it.
use lfs_cloud.Prelude.{
  ℕ, ◌+◌, ◌≤◌, ◌≡◌, refl, Bool, true, none, [], ◌∷◌, ◌++◌, map, ok, bind-eq-ok, all, arith, ◌↔◌,
}
use lfs_cloud.Prelude.Text.{
  Text, len, len_utf8, split_once, text_eq, is_hexdigit, to_lowercase, is_whitespace,
}
use lfs_cloud.Prelude.Text.Trim.{solid, solid_visible, trim-solid, all-imp}
use lfs_cloud.Lfs.Oid.{
  LfsOid, is_lower_hexdigit, find_not, from_sha256_hex, from_canonical_sha256_hex, digest_part, new,
  as_pointer_oid, sha256_prefix,
}

-- 64 bytes, all of them digits of lowercase hexadecimal.
pub record IsCanonical (oid : LfsOid) : Type 0 where
  pub length_ok : len oid.hex ≡ 64
  pub digits_ok : all is_lower_hexdigit oid.hex ≡ true

find_not-none : (p : ℕ → Bool) (i : ℕ) (s : Text) → find_not p i s ≡ none → all p s ≡ true
unfolding find_not
find_not-none p i [] h = refl
find_not-none p i (c ∷ s) h = ground (arith, find_not-none p (i + 1) s)

find_not-all : (p : ℕ → Bool) (i : ℕ) (s : Text) → all p s ≡ true → find_not p i s ≡ none
unfolding find_not
find_not-all p i [] h = refl
find_not-all p i (c ∷ s) h = ground (arith, find_not-all p (i + 1) s)

lower_digit : (c : ℕ) → is_hexdigit c ≡ true → is_lower_hexdigit (to_lowercase c) ≡ true
unfolding to_lowercase
lower_digit c h = ground arith

lower_len : (c : ℕ) → is_hexdigit c ≡ true → len_utf8 (to_lowercase c) ≡ len_utf8 c
unfolding to_lowercase
lower_len c h = ground arith

all_lower :
    (s : Text) → all is_hexdigit s ≡ true → all is_lower_hexdigit (map to_lowercase s) ≡ true
all_lower [] h = refl
all_lower (c ∷ s) h = ground (arith, lower_digit c, all_lower s)

len-lower : (s : Text) → all is_hexdigit s ≡ true → len (map to_lowercase s) ≡ len s
unfolding len
len-lower [] h = refl
len-lower (c ∷ s) h = ground (arith, lower_len c, len-lower s)

pub from_sha256_hex-IsCanonical :
    (hex : Text) (oid : LfsOid) → from_sha256_hex hex ≡ ok oid → IsCanonical oid
unfolding from_sha256_hex
from_sha256_hex-IsCanonical hex oid h =
    ground (arith, find_not-none is_hexdigit 0 hex, all_lower hex, len-lower hex)

-- The strict decoder accepts exactly the canonical digests, and leaves them as they are.
pub from_canonical_sha256_hex_iff :
    (hex : Text) (oid : LfsOid)
    → (from_canonical_sha256_hex hex ≡ ok oid) ↔ ((oid.hex ≡ hex) × IsCanonical oid)
unfolding from_canonical_sha256_hex
from_canonical_sha256_hex_iff hex oid = (
  λ h. ground (arith, find_not-none is_lower_hexdigit 0 hex),
  λ h. ground (arith, find_not-all is_lower_hexdigit 0 hex),
)

-- Whatever `LfsOid::new` accepts is canonical.
pub new-IsCanonical : (value : Text) (oid : LfsOid) → new value ≡ ok oid → IsCanonical oid
unfolding new
new-IsCanonical value oid h =
    let (hex, _, accepted) = bind-eq-ok _ from_sha256_hex h in
    from_sha256_hex-IsCanonical hex oid accepted

lower_hexdigit_range : (c : ℕ) → is_lower_hexdigit c ≡ true → (48 ≤ c) × (c ≤ 102)
lower_hexdigit_range c h = ground arith

lower_hexdigit-solid : (c : ℕ) → is_lower_hexdigit c ≡ true → solid c ≡ true
lower_hexdigit-solid c h =
    solid_visible c (omega (arith, lower_hexdigit_range c h))
      (omega (arith, lower_hexdigit_range c h))

pub all-solid-hex : (s : Text) → all is_lower_hexdigit s ≡ true → all solid s ≡ true
all-solid-hex s = all-imp is_lower_hexdigit solid s lower_hexdigit-solid

lower_hexdigit-hexdigit : (c : ℕ) → is_lower_hexdigit c ≡ true → is_hexdigit c ≡ true
lower_hexdigit-hexdigit c h = ground arith

map-lower : (s : Text) → all is_lower_hexdigit s ≡ true → map to_lowercase s ≡ s
unfolding to_lowercase
map-lower [] h = refl
map-lower (c ∷ s) h = ground (arith, map-lower s)

from_sha256_hex-canonical : (oid : LfsOid) → IsCanonical oid → from_sha256_hex oid.hex ≡ ok oid
unfolding from_sha256_hex
from_sha256_hex-canonical oid c = ground (
  arith,
  map-lower oid.hex,
  find_not-all is_hexdigit 0 oid.hex,
  all-imp is_lower_hexdigit is_hexdigit oid.hex lower_hexdigit-hexdigit c.digits_ok,
)

all-solid-prefixed :
    (s : Text) → all is_lower_hexdigit s ≡ true → all solid (sha256_prefix ++ s) ≡ true
unfolding is_whitespace
all-solid-prefixed s h = all-solid-hex s h

digest_part-prefixed : (s : Text) → digest_part (sha256_prefix ++ s) ≡ ok s
unfolding digest_part text_eq split_once
digest_part-prefixed s = refl

-- The pointer form of a canonical identifier parses to that identifier.
pub new-as_pointer_oid : (oid : LfsOid) → IsCanonical oid → new (as_pointer_oid oid) ≡ ok oid
unfolding new as_pointer_oid
new-as_pointer_oid oid c =
    rw (trim-solid (sha256_prefix ++ oid.hex) (all-solid-prefixed oid.hex c.digits_ok))
      (rw digest_part-prefixed (from_sha256_hex-canonical oid c))
