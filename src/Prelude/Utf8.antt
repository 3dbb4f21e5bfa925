-- ===== src/Prelude/Utf8.antt =====
-- UTF-8: the bytes of a `str`, and `String::from_utf8`.
use Prim.Native.Nat.{ℕ, ◌+◌, ◌-◌, ◌*◌, ◌/◌, ◌%◌, ◌≤◌, ◌<◌}
use mathlib.Core.Path.{◌≡◌, refl, ◌∙◌, ap}
use mathlib.Core.Logic.{inl, inr}
use mathlib.Core.Bool.{Bool, true, ◌||◌}
use mathlib.Core.List.{List, [], ◌∷◌, ◌++◌}
use mathlib.Core.Option.{Option, none, some}
use mathlib.Core.Option
use native.Mathlib.Omega.{arith}
use lfs_cloud.Prelude.Tests.{ltb, ◌==◌, if◌then◌else◌, in_range, Bool-cases}
use lfs_cloud.Prelude.Lists.{all}
use lfs_cloud.Prelude.Text.{Text}
use lfs_cloud.Prelude.Text.Trim.{all-append}

-- A `char`: no surrogate.
abbrev pub is_scalar : ℕ → Bool
is_scalar c = ltb c 0xd800 || in_range 0xe000 0x10_ffff c

unfoldable pub encode_char : ℕ → List ℕ
encode_char c =
    if ltb c 0x80
    then c ∷ []
    else if ltb c 0x800
    then (0xc0 + c / 64) ∷ (0x80 + c % 64) ∷ []
    else if ltb c 0x1_0000
    then (0xe0 + c / 4096) ∷ (0x80 + c / 64 % 64) ∷ (0x80 + c % 64) ∷ []
    else (0xf0 + c / 262_144) ∷ (0x80 + c / 4096 % 64) ∷ (0x80 + c / 64 % 64) ∷ (0x80 + c % 64) ∷ []

-- str::as_bytes
unfoldable pub as_bytes : Text → List ℕ
as_bytes [] = []
as_bytes (c ∷ s) = encode_char c ++ as_bytes s

-- How many bytes of the character are to come, what they add to, and the bounds of the next one.
pub record Pending : Type 0 where
  pub need : ℕ
  pub acc : ℕ
  pub low : ℕ
  pub high : ℕ

abbrev pub pending : ℕ → ℕ → ℕ → ℕ → Pending
pending n a l h = record { need = n; acc = a; low = l; high = h }

abbrev pub start : Pending
start = pending 0 0 0 0

pub data Step : Type 0 where
  emit : ℕ → Step
  more : Pending → Step
  invalid : Step

unfoldable pub lead : ℕ → Step
lead b =
    if ltb b 0x80
    then emit b
    else if in_range 0xc2 0xdf b
    then more (pending 1 (b - 0xc0) 0x80 0xbf)
    else if in_range 0xe0 0xef b
    then more
        (pending 2 (b - 0xe0) (if b == 0xe0 then 0xa0 else 0x80) (if b == 0xed then 0x9f else 0xbf))
    else if in_range 0xf0 0xf4 b
    then more
        (pending 3 (b - 0xf0) (if b == 0xf0 then 0x90 else 0x80) (if b == 0xf4 then 0x8f else 0xbf))
    else invalid

unfoldable pub step : Pending → ℕ → Step
step p b =
    let value = p.acc * 64 + (b - 0x80) in
    if p.need == 0
    then lead b
    else if in_range p.low p.high b
    then if p.need == 1 then emit value else more (pending (p.need - 1) value 0x80 0xbf)
    else invalid

unfoldable pub decode : Pending → List ℕ → Option Text
decode p [] = if p.need == 0 then some [] else none
decode p (b ∷ s) = elim (step p b) [
  | emit c ↦ Option.map (λ t. c ∷ t) (decode start s)
  | more q ↦ decode q s
  | invalid ↦ none
]

-- String::from_utf8
abbrev pub from_utf8 : List ℕ → Option Text
from_utf8 bytes = decode start bytes

decode-emit :
    (p : Pending) (b c : ℕ) (s : List ℕ)
    → step p b ≡ emit c
    → decode p (b ∷ s) ≡ Option.map (λ t. c ∷ t) (decode start s)
unfolding decode
decode-emit p b c s h = rw (h, decode) refl

decode-more :
    (p q : Pending) (b : ℕ) (s : List ℕ) → step p b ≡ more q → decode p (b ∷ s) ≡ decode q s
unfolding decode
decode-more p q b s h = rw (h, decode) refl

step-tail :
    (n a l h b : ℕ)
    → 2 ≤ n
    → l ≤ b
    → b ≤ h
    → step (pending n a l h) b ≡ more (pending (n - 1) (a * 64 + (b - 0x80)) 0x80 0xbf)
unfolding step
step-tail n a l h b k lo hi = ground arith

step-last :
    (a l h b c : ℕ) → l ≤ b → b ≤ h → a * 64 + (b - 0x80) ≡ c → step (pending 1 a l h) b ≡ emit c
unfolding step
step-last a l h b c lo hi e = ground arith

lead_two :
    (c : ℕ)
    → 0x80 ≤ c
    → c < 0x800
    → step start (0xc0 + c / 64) ≡ more (pending 1 (c / 64) 0x80 0xbf)
unfolding step lead
lead_two c h k = ground arith

lead_three :
    (c : ℕ)
    → 0x800 ≤ c
    → c < 0x1_0000
    → step start (0xe0 + c / 4096)
      ≡ more (
          pending 2
            (c / 4096)
            (if c / 4096 == 0 then 0xa0 else 0x80)
            (if c / 4096 == 0xd then 0x9f else 0xbf))
unfolding step lead
lead_three c h k = ground arith

lead_four :
    (c : ℕ)
    → 0x1_0000 ≤ c
    → c ≤ 0x10_ffff
    → step start (0xf0 + c / 262_144)
      ≡ more (
          pending 3
            (c / 262_144)
            (if c / 262_144 == 0 then 0x90 else 0x80)
            (if c / 262_144 == 4 then 0x8f else 0xbf))
unfolding step lead
lead_four c h k = ground arith

-- The bytes of a character decode to it.
module _ (c : ℕ) (s : List ℕ) where
  abbrev Decodes : List ℕ → Type 0
  Decodes bytes = decode start (bytes ++ s) ≡ Option.map (λ t. c ∷ t) (decode start s)

  one-Decodes : c < 0x80 → Decodes (c ∷ [])
  unfolding step lead
  one-Decodes h = decode-emit start c c s (ground arith)

  two-Decodes : 0x80 ≤ c → c < 0x800 → Decodes ((0xc0 + c / 64) ∷ (0x80 + c % 64) ∷ [])
  two-Decodes h k =
      decode-more start _ _ _ (lead_two c h k)
      ∙ decode-emit _ _ c s
          (step-last (c / 64) 0x80 0xbf (0x80 + c % 64) c (omega arith) (omega arith) (omega arith))

  three-Decodes :
      0x800 ≤ c
      → c < 0x1_0000
      → is_scalar c ≡ true
      → Decodes ((0xe0 + c / 4096) ∷ (0x80 + c / 64 % 64) ∷ (0x80 + c % 64) ∷ [])
  three-Decodes h k scalar =
      decode-more start _ _ _ (lead_three c h k)
      ∙ decode-more _ _ _ _ (
          step-tail 2 (c / 4096) _ _ (0x80 + c / 64 % 64) (omega arith) (ground arith)
            (ground arith))
      ∙ decode-emit _ _ c s
          (step-last _ 0x80 0xbf (0x80 + c % 64) c (omega arith) (omega arith) (omega arith))

  four-Decodes :
      0x1_0000 ≤ c
      → c ≤ 0x10_ffff
      → Decodes (
          (0xf0 + c / 262_144)
          ∷ (0x80 + c / 4096 % 64)
          ∷ (0x80 + c / 64 % 64)
          ∷ (0x80 + c % 64)
          ∷ [])
  four-Decodes h k =
      decode-more start _ _ _ (lead_four c h k)
      ∙ decode-more _ _ _ _ (
          step-tail 3 (c / 262_144) _ _ (0x80 + c / 4096 % 64) (omega arith) (ground arith)
            (ground arith))
      ∙ decode-more _ _ _ _
          (step-tail 2 _ 0x80 0xbf (0x80 + c / 64 % 64) (omega arith) (omega arith) (omega arith))
      ∙ decode-emit _ _ c s
          (step-last _ 0x80 0xbf (0x80 + c % 64) c (omega arith) (omega arith) (omega arith))

  encode_char-Decodes : is_scalar c ≡ true → Decodes (encode_char c)
  unfolding encode_char
  encode_char-Decodes scalar = elim (Bool-cases (ltb c 0x80)) [
    | inl e ↦ rw e (one-Decodes (ground arith))
    | inr e ↦ elim (Bool-cases (ltb c 0x800)) [
      | inl f ↦ rw (e, f) (two-Decodes (ground arith) (ground arith))
      | inr f ↦ elim (Bool-cases (ltb c 0x1_0000)) [
        | inl g ↦ rw (e, f, g) (three-Decodes (ground arith) (ground arith) scalar)
        | inr g ↦ rw (e, f, g) (four-Decodes (ground arith) (ground arith))
      ]
    ]
  ]

pub from_utf8-as_bytes : (s : Text) → all is_scalar s ≡ true → from_utf8 (as_bytes s) ≡ some s
unfolding as_bytes decode
from_utf8-as_bytes [] h = refl
from_utf8-as_bytes (c ∷ s) h =
    encode_char-Decodes c (as_bytes s) (ground arith)
    ∙ ap (Option.map (λ t. c ∷ t)) (from_utf8-as_bytes s (ground arith))

abbrev pub is_byte : ℕ → Bool
is_byte b = ltb b 256

encode_char-bytes : (c : ℕ) → is_scalar c ≡ true → all is_byte (encode_char c) ≡ true
unfolding encode_char
encode_char-bytes c h = ground arith

pub as_bytes-bytes : (s : Text) → all is_scalar s ≡ true → all is_byte (as_bytes s) ≡ true
unfolding as_bytes
as_bytes-bytes [] h = refl
as_bytes-bytes (c ∷ s) h =
    all-append is_byte (encode_char c) (as_bytes s) (encode_char-bytes c (ground arith))
      (as_bytes-bytes s (ground arith))
