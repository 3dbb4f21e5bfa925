-- ===== src/Prelude/Text.antt =====
-- `str` of the source: a list of Unicode scalar values. `len` counts bytes of UTF-8.
pub mod Trim
pub mod Split
pub mod Lines
use Prim.Native.Nat.{ℕ, ◌+◌}
use Prim.Native.Char.{code}
use Prim.Native.String.{String}
use mathlib.Core.Path.{◌≡◌, refl}
use mathlib.Core.Logic.{◌↔◌}
use mathlib.Core.Bool.{Bool, true, false, ◌&&◌, ◌||◌}
use mathlib.Core.List.{List, [], ◌∷◌, map, reverse}
use mathlib.Core.Option.{Option, none, some}
use mathlib.Core.Option
use native.Mathlib.Omega.{arith}
use lfs_cloud.Prelude.Tests.{ltb, ◌==◌, if◌then◌else◌, in_range}

abbrev pub Text : Type 0
Text = List ℕ

-- The scalar values of a literal.
abbrev pub codes : String → Text
codes String.[] = []
codes (String.◌∷◌ c s) = code c ∷ codes s

abbrev pub len_utf8 : ℕ → ℕ
len_utf8 c = if ltb c 0x80 then 1 else if ltb c 0x800 then 2 else if ltb c 0x1_0000 then 3 else 4

-- str::len
unfoldable pub len : Text → ℕ
len [] = 0
len (c ∷ s) = len_utf8 c + len s

unfoldable pub text_eq : Text → Text → Bool
text_eq [] [] = true
text_eq (c ∷ s) (d ∷ t) = c == d && text_eq s t
text_eq _ _ = false

-- `str` orders by bytes, and UTF-8 keeps the order of the scalar values.
unfoldable pub text_ltb : Text → Text → Bool
text_ltb [] [] = false
text_ltb [] (d ∷ t) = true
text_ltb (c ∷ s) [] = false
text_ltb (c ∷ s) (d ∷ t) = ltb c d || (c == d && text_ltb s t)

-- str::strip_prefix
unfoldable pub strip_prefix : Text → Text → Option Text
strip_prefix [] s = some s
strip_prefix (p ∷ ps) [] = none
strip_prefix (p ∷ ps) (c ∷ s) = if p == c then strip_prefix ps s else none

-- str::split_once, at a character
unfoldable pub split_once : ℕ → Text → Option (Text × Text)
split_once d [] = none
split_once d (c ∷ s) =
    let rest = Option.map (λ (p : Text × Text). (c ∷ p.0, p.1)) (split_once d s) in
    if c == d then some ([], s) else rest

-- char::is_whitespace, the Unicode property White_Space
unfoldable pub is_whitespace : ℕ → Bool
is_whitespace c =
    in_range 0x9 0xd c
    || c == 0x20
    || c == 0x85
    || c == 0xa0
    || c == 0x1680
    || in_range 0x2000 0x200a c
    || c == 0x2028
    || c == 0x2029
    || c == 0x202f
    || c == 0x205f
    || c == 0x3000

-- str::trim_start
unfoldable pub trim_start : Text → Text
unfolding is_whitespace
trim_start [] = []
trim_start (c ∷ s) = let rest = trim_start s in if is_whitespace c then rest else c ∷ s

-- str::trim
unfoldable pub trim : Text → Text
unfolding trim_start
trim s = reverse (trim_start (reverse (trim_start s)))

-- u8::is_ascii_digit, is_ascii_hexdigit, is_ascii_alphanumeric, is_ascii_whitespace
abbrev pub is_digit : ℕ → Bool
is_digit c = in_range b'0' b'9' c

abbrev pub is_hexdigit : ℕ → Bool
is_hexdigit c = is_digit c || in_range b'a' b'f' c || in_range b'A' b'F' c

abbrev pub is_alphanumeric : ℕ → Bool
is_alphanumeric c = is_digit c || in_range b'a' b'z' c || in_range b'A' b'Z' c

abbrev pub is_ascii_whitespace : ℕ → Bool
is_ascii_whitespace c = c == 0x20 || c == 0x9 || c == 0xa || c == 0xc || c == 0xd

-- u8::to_ascii_lowercase
unfoldable pub to_lowercase : ℕ → ℕ
to_lowercase c = if in_range b'A' b'Z' c then c + 32 else c

-- str::eq_ignore_ascii_case
unfoldable pub eq_ignore_ascii_case : Text → Text → Bool
unfolding text_eq to_lowercase
eq_ignore_ascii_case s t = text_eq (map to_lowercase s) (map to_lowercase t)

pub text_eq_iff : (s t : Text) → (text_eq s t ≡ true) ↔ (s ≡ t)
unfolding text_eq
text_eq_iff [] [] = (λ _. refl, λ _. refl)
text_eq_iff [] (d ∷ t) = (λ h. cc, λ h. cc)
text_eq_iff (c ∷ s) [] = (λ h. cc, λ h. cc)
text_eq_iff (c ∷ s) (d ∷ t) = ground (arith, text_eq_iff s t)

pub text_eq_refl : (s : Text) → text_eq s s ≡ true
text_eq_refl s = (text_eq_iff s s).1 refl

-- The order is strict.
pub text_ltb_asym :
    (s t : Text) → text_ltb s t ≡ true → (text_eq t s ≡ false) × (text_ltb t s ≡ false)
unfolding text_ltb text_eq
text_ltb_asym [] [] h = cc
text_ltb_asym [] (d ∷ t) h = (refl, refl)
text_ltb_asym (c ∷ s) [] h = cc
text_ltb_asym (c ∷ s) (d ∷ t) h = ground (arith, text_ltb_asym s t)
