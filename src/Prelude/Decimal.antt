-- ===== src/Prelude/Decimal.antt =====
-- `u64::to_string` and `u64::from_str` of the standard library.
use Prim.Native.Nat.{ℕ, zero, suc, ◌+◌, ◌-◌, ◌*◌, ◌/◌, ◌%◌, ◌^◌, ◌≤◌, ◌<◌}
use mathlib.Core.Path.{◌≡◌, refl}
use mathlib.Core.Bool.{true, false, not, ◌&&◌, ◌||◌}
use mathlib.Core.List.{[], ◌∷◌}
use native.Mathlib.Omega.{arith}
use native.Mathlib.Nat.{pow-suc}
use native.Mathlib.Decide.{dec_lt}
use lfs_cloud.Prelude.Tests.{ltb, leb, ◌==◌, if◌then◌else◌}
use lfs_cloud.Prelude.Lists.{all, is_empty}
use lfs_cloud.Prelude.Results.{Result, ok, err}
use lfs_cloud.Prelude.Text.{Text, is_digit}

abbrev pub u64_bound : ℕ
u64_bound = 2 ^ 64

-- Why a text is no u64.
pub data ParseIntError : Type 0 where
  empty invalid_digit pos_overflow : ParseIntError

digits_onto : ℕ → ℕ → Text → Text
digits_onto zero n acc = acc
digits_onto (suc fuel) n acc =
    let acc' = (48 + n % 10) ∷ acc in
    let more = digits_onto fuel (n / 10) acc' in if ltb n 10 then acc' else more

-- A u64 has at most twenty digits.
unfoldable pub to_string : ℕ → Text
unfolding digits_onto
to_string n = digits_onto 20 n []

parse_digits : ℕ → Text → Result ParseIntError ℕ
parse_digits acc [] = ok acc
parse_digits acc (c ∷ s) =
    let next = acc * 10 + (c - 48) in
    let rest = parse_digits next s in
    if not (is_digit c)
    then err invalid_digit
    else if leb u64_bound next
    then err pos_overflow
    else rest

unfoldable pub from_str : Text → Result ParseIntError ℕ
unfolding parse_digits
from_str [] = err empty
from_str (c ∷ s) =
    if (c == b'+' || c == b'-') && is_empty s
    then err invalid_digit
    else if c == b'+'
    then parse_digits 0 s
    else parse_digits 0 (c ∷ s)

-- One digit read.
parse_digits-digit :
    (m d : ℕ) (acc : Text)
    → d < 10
    → m * 10 + d < u64_bound
    → parse_digits m ((48 + d) ∷ acc) ≡ parse_digits (m * 10 + d) acc
unfolding parse_digits
parse_digits-digit m d acc h k =
    let e : 48 + d - 48 ≡ d = omega arith in rw (e, digit_test, in_bound (m * 10 + d) k)
  where
    digit_test : is_digit (48 + d) ≡ true
    digit_test = ground arith

    in_bound : (n : ℕ) → n < u64_bound → leb u64_bound n ≡ false
    in_bound n b = ground arith

parse_digits-first :
    (n : ℕ) (acc : Text) → n < 10 → parse_digits 0 ((48 + n) ∷ acc) ≡ parse_digits n acc
parse_digits-first n acc h =
    let e : 0 * 10 + n ≡ n = omega arith in rw (parse_digits-digit 0 n acc h (omega arith), e)

digits_onto-one : (fuel n : ℕ) (acc : Text) → n < 10 → digits_onto (suc fuel) n acc ≡ (48 + n) ∷ acc
unfolding digits_onto
digits_onto-one fuel n acc h = ground arith

digits_onto-more :
    (fuel n : ℕ) (acc : Text)
    → 10 ≤ n
    → digits_onto (suc fuel) n acc ≡ digits_onto fuel (n / 10) ((48 + n % 10) ∷ acc)
unfolding digits_onto
digits_onto-more fuel n acc h = ground arith

parse_digits-digits_onto :
    (fuel n : ℕ) (acc : Text)
    → n < 10 ^ suc fuel
    → n < u64_bound
    → parse_digits 0 (digits_onto (suc fuel) n acc) ≡ parse_digits n acc
parse_digits-digits_onto zero n acc h k =
    let small : n < 10 = omega arith in
    rw (digits_onto-one zero n acc small) (parse_digits-first n acc small)
parse_digits-digits_onto (suc fuel) n acc h k = elim (dec_lt n 10) [
  | yes small ↦ rw (digits_onto-one (suc fuel) n acc small) (parse_digits-first n acc small)
  | no big ↦
      let rebuilt : n / 10 * 10 + n % 10 ≡ n = omega arith in
      rw (
        digits_onto-more (suc fuel) n acc (omega arith),
        parse_digits-digits_onto fuel (n / 10) ((48 + n % 10) ∷ acc)
            (omega (arith, pow-suc 10 (suc fuel))) (omega arith),
        parse_digits-digit (n / 10) (n % 10) acc (omega arith) (omega arith),
        rebuilt,
      )
]

-- The digits are digits, and the first is no `+`.
all_digits-digits_onto :
    (fuel n : ℕ) (acc : Text)
    → all is_digit acc ≡ true
    → all is_digit (digits_onto fuel n acc) ≡ true
unfolding digits_onto
all_digits-digits_onto zero n acc h = h
all_digits-digits_onto (suc fuel) n acc h =
    ground (arith, all_digits-digits_onto fuel (n / 10) ((48 + n % 10) ∷ acc))

digits_onto-nonempty :
    (fuel n : ℕ) (acc : Text) → is_empty acc ≡ false → is_empty (digits_onto fuel n acc) ≡ false
unfolding digits_onto
digits_onto-nonempty zero n acc h = h
digits_onto-nonempty (suc fuel) n acc h =
    ground (arith, digits_onto-nonempty fuel (n / 10) ((48 + n % 10) ∷ acc))

pub all_digits-to_string : (n : ℕ) → all is_digit (to_string n) ≡ true
unfolding to_string
all_digits-to_string n = all_digits-digits_onto 20 n [] refl

pub to_string-nonempty : (n : ℕ) → is_empty (to_string n) ≡ false
unfolding to_string digits_onto
to_string-nonempty n = ground (arith, digits_onto-nonempty 19 (n / 10) ((48 + n % 10) ∷ []))

-- A text of digits is read digit by digit.
from_str-digits :
    (s : Text) → all is_digit s ≡ true → is_empty s ≡ false → from_str s ≡ parse_digits 0 s
unfolding from_str
from_str-digits [] h k = cc
from_str-digits (c ∷ s) h k = ground arith

-- Reading back what was printed.
pub from_str-to_string : (n : ℕ) → n < u64_bound → from_str (to_string n) ≡ ok n
from_str-to_string n h =
    rw (from_str-digits (to_string n) (all_digits-to_string n) (to_string-nonempty n))
      (unfold to_string in unfold parse_digits in parse_digits-digits_onto 19 n [] (omega arith) h)

parse_digits-lt :
    (s : Text) (acc n : ℕ) → acc < u64_bound → parse_digits acc s ≡ ok n → n < u64_bound
unfolding parse_digits
parse_digits-lt [] acc n h k = ground arith
parse_digits-lt (c ∷ s) acc n h k = ground (arith, parse_digits-lt s (acc * 10 + (c - 48)) n)

-- What is read is a u64.
pub from_str-lt : (s : Text) (n : ℕ) → from_str s ≡ ok n → n < u64_bound
unfolding from_str
from_str-lt [] n h = cc
from_str-lt (c ∷ s) n h =
    ground (arith, parse_digits-lt s 0 n (omega arith), parse_digits-lt (c ∷ s) 0 n (omega arith))
