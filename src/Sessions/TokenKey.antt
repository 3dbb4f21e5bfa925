-- ===== src/Sessions/TokenKey.antt =====
-- `LfsSessionTokenKey` of src/sessions.rs: the SHA-256 digest of a token, and its hexadecimal form.
pub mod RoundTrip
use lfs_cloud.Prelude.{
  ℕ, ◌+◌, ◌-◌, ◌*◌, ◌/◌, ◌%◌, ◌≡◌, ◌↔◌, refl, Bool, true, not, Option, none, some, [], ◌∷◌, ◌++◌,
  List, ◌==◌, ltb, if◌then◌else◌, in_range, and_then, Result, ok, err, ◌>>=◌, ok_or, arith,
}
use lfs_cloud.Prelude.Text.{Text, codes, len, text_eq, text_eq_iff, is_digit}
use lfs_cloud.Prelude.Utf8.{as_bytes, from_utf8}
use lfs_cloud.Prelude.Map.{Eq}
use lfs_cloud.Errors.{ServerError, internal}

pub record LfsSessionTokenKey : Type 0 where
  pub digest : List ℕ

-- A list of bytes compares as a text does.
unfoldable pub key_eq : LfsSessionTokenKey → LfsSessionTokenKey → Bool
key_eq a b = text_eq a.digest b.digest

pub key_eq_iff : (a b : LfsSessionTokenKey) → (key_eq a b ≡ true) ↔ (a ≡ b)
unfolding key_eq
key_eq_iff a b = ground (arith, text_eq_iff a.digest b.digest)

instance abbrev pub token_key : Eq LfsSessionTokenKey
token_key = record { beq = key_eq; beq_iff = key_eq_iff }

abbrev pub invalid_durable_session : Text → ServerError
invalid_durable_session message =
    internal (codes "durable lfs session state is invalid: " ++ message)

-- char::to_digit, with radix 16
unfoldable pub to_digit : ℕ → Option ℕ
to_digit c =
    if is_digit c
    then some (c - 48)
    else if in_range b'a' b'f' c
    then some (c - 87)
    else if in_range b'A' b'F' c
    then some (c - 55)
    else none

unfoldable pub digits_u8 : ℕ → Text → Option ℕ
digits_u8 acc [] = some acc
digits_u8 acc (c ∷ s) =
    and_then (to_digit c)
      λ d. let n = acc * 16 + d in let rest = digits_u8 n s in if ltb n 256 then rest else none

-- u8::from_str_radix, with radix 16: a sign is allowed before a digit.
unfoldable pub u8_from_hex : Text → Option ℕ
u8_from_hex [] = none
u8_from_hex (c ∷ []) = to_digit c
u8_from_hex (c ∷ d ∷ s) = if c == b'+' then digits_u8 0 (d ∷ s) else digits_u8 0 (c ∷ d ∷ s)

-- The loop over the chunks of two bytes.
unfoldable pub digest_from_hex : List ℕ → Result ServerError (List ℕ)
digest_from_hex [] = ok []
digest_from_hex (a ∷ []) = ok []
digest_from_hex (a ∷ b ∷ s) = do
  encoded ←
      ok_or (from_utf8 (a ∷ b ∷ []))
        (invalid_durable_session (codes "stored token digest is not valid UTF-8"))
  byte ←
      ok_or (u8_from_hex encoded)
        (invalid_durable_session (codes "stored token digest is not hexadecimal"))
  digest ← digest_from_hex s
  ok (byte ∷ digest)

unfoldable pub from_hex : Text → Result ServerError LfsSessionTokenKey
from_hex value =
    if not (len value == 64)
    then err (invalid_durable_session (codes "stored token digest has an invalid length"))
    else digest_from_hex (as_bytes value) >>= λ digest. ok (record { digest = digest })

-- char::from_digit, with radix 16
abbrev pub from_digit : ℕ → ℕ
from_digit d = if ltb d 10 then 48 + d else 87 + d

unfoldable pub hex_digits : List ℕ → Text
hex_digits [] = []
hex_digits (b ∷ s) = from_digit (b / 16) ∷ from_digit (b % 16) ∷ hex_digits s

unfoldable pub to_hex : LfsSessionTokenKey → Text
to_hex key = hex_digits key.digest
