-- ===== src/Sessions/TokenKey/RoundTrip.antt =====
-- The hexadecimal form of a token's digest in src/sessions.rs is read back.
use lfs_cloud.Prelude.{
  ℕ, ◌*◌, ◌/◌, ◌%◌, ◌<◌, ◌≤◌, ◌≡◌, refl, true, some, [], ◌∷◌, List, all, length, ok, arith,
}
use lfs_cloud.Prelude.Text.{len}
use lfs_cloud.Prelude.Utf8.{as_bytes, from_utf8, is_byte, encode_char, from_utf8-as_bytes}
use lfs_cloud.Sessions.TokenKey.{
  LfsSessionTokenKey, to_digit, digits_u8, u8_from_hex, digest_from_hex, from_hex, from_digit,
  hex_digits, to_hex,
}

-- A SHA-256 digest is 32 bytes.
abbrev pub IsDigest : LfsSessionTokenKey → Type 0
IsDigest key = (length key.digest ≡ 32) × (all is_byte key.digest ≡ true)

to_digit-from_digit : (d : ℕ) → d < 16 → to_digit (from_digit d) ≡ some d
unfolding to_digit
to_digit-from_digit d h = ground arith

from_digit_bounds : (d : ℕ) → d < 16 → (48 ≤ from_digit d) × (from_digit d < 128)
from_digit_bounds d h = ground arith

u8_from_hex-byte :
    (b : ℕ) → b < 256 → u8_from_hex (from_digit (b / 16) ∷ from_digit (b % 16) ∷ []) ≡ some b
unfolding u8_from_hex digits_u8
u8_from_hex-byte b h =
    rw (to_digit-from_digit (b / 16) (omega arith), to_digit-from_digit (b % 16) (omega arith))
      (ground (arith, from_digit_bounds (b / 16)))

len-hex_digits : (s : List ℕ) → all is_byte s ≡ true → len (hex_digits s) ≡ 2 * length s
unfolding len hex_digits
len-hex_digits [] h = omega arith
len-hex_digits (b ∷ s) h =
    let small : b < 256 = ground arith in
    ground (arith, len-hex_digits s, from_digit_bounds (b / 16), from_digit_bounds (b % 16))

ascii : (c : ℕ) → c < 128 → encode_char c ≡ c ∷ []
unfolding encode_char
ascii c h = ground arith

as_bytes-hex_digits : (s : List ℕ) → all is_byte s ≡ true → as_bytes (hex_digits s) ≡ hex_digits s
unfolding as_bytes hex_digits
as_bytes-hex_digits [] h = refl
as_bytes-hex_digits (b ∷ s) h =
    let small : b < 256 = ground arith in
    let hi = ascii (from_digit (b / 16)) (from_digit_bounds (b / 16) (omega arith)).1 in
    let lo = ascii (from_digit (b % 16)) (from_digit_bounds (b % 16) (omega arith)).1 in
    rw (hi, lo, as_bytes-hex_digits s (ground arith)) refl

from_utf8-ascii : (c d : ℕ) → c < 128 → d < 128 → from_utf8 (c ∷ d ∷ []) ≡ some (c ∷ d ∷ [])
unfolding as_bytes
from_utf8-ascii c d hc hd =
    let text = from_utf8-as_bytes (c ∷ d ∷ []) (ground arith) in rw (ascii c hc, ascii d hd) at text

digest_from_hex-hex_digits :
    (s : List ℕ) → all is_byte s ≡ true → digest_from_hex (hex_digits s) ≡ ok s
unfolding digest_from_hex hex_digits
digest_from_hex-hex_digits [] h = refl
digest_from_hex-hex_digits (b ∷ s) h =
    let small : b < 256 = ground arith in
    rw
      (
        from_utf8-ascii (from_digit (b / 16)) (from_digit (b % 16))
            (from_digit_bounds (b / 16) (omega arith)).1
            (from_digit_bounds (b % 16) (omega arith)).1,
        u8_from_hex-byte b small,
        digest_from_hex-hex_digits s (ground arith),
      )
      refl

-- The stored form of a digest is read as that digest.
pub from_hex-to_hex : (key : LfsSessionTokenKey) → IsDigest key → from_hex (to_hex key) ≡ ok key
unfolding from_hex to_hex
from_hex-to_hex key (size, bytes) =
    let n : len (hex_digits key.digest) ≡ 64 = omega (arith, len-hex_digits key.digest bytes) in
    rw (n, as_bytes-hex_digits key.digest bytes, digest_from_hex-hex_digits key.digest bytes) refl
