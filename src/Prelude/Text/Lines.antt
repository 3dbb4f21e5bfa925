-- ===== src/Prelude/Text/Lines.antt =====
-- str::lines, and what it finds in a text that is put together line by line.
use mathlib.Core.Path.{◌≡◌, refl}
use mathlib.Core.Bool.{Bool, true, not, ◌&&◌}
use mathlib.Core.List.{
  List, [], ◌∷◌, ◌++◌, reverse, reverse-cons, reverse-reverse, append_assoc, append-nil,
}
use native.Mathlib.Omega.{arith}
use lfs_cloud.Prelude.Tests.{◌==◌, if◌then◌else◌}
use lfs_cloud.Prelude.Text.{Text}
use lfs_cloud.Prelude.Text.Trim.{all-reverse}
use lfs_cloud.Prelude.Text.Split.{lacks}

-- The text of a line read backwards, with the `\r` before the `\n` taken off.
close_line : Text → Text
close_line [] = []
close_line (c ∷ cur) = if c == 0xd then reverse cur else reverse (c ∷ cur)

-- `cur` is the line so far, backwards. The last line may lack its `\n`, and then keeps its `\r`.
lines_from : Text → Text → List Text
unfolding close_line
lines_from [] [] = []
lines_from (d ∷ cur) [] = reverse (d ∷ cur) ∷ []
lines_from cur (c ∷ s) =
    let closed = close_line cur ∷ lines_from [] s in
    let longer = lines_from (c ∷ cur) s in if c == 0xa then closed else longer

unfoldable pub lines : Text → List Text
unfolding lines_from
lines s = lines_from [] s

-- A line of its own: no `\n`, and no `\r`.
abbrev pub is_line : Text → Bool
is_line s = lacks 0xa s && lacks 0xd s

close_line-lacks : (cur : Text) → lacks 0xd cur ≡ true → close_line cur ≡ reverse cur
unfolding close_line
close_line-lacks [] h = refl
close_line-lacks (c ∷ cur) h = ground arith

lines_from-append :
    (cur s t : Text)
    → lacks 0xa s ≡ true
    → lines_from cur (s ++ 0xa ∷ t) ≡ close_line (reverse s ++ cur) ∷ lines_from [] t
unfolding lines_from
lines_from-append [] [] t h = refl
lines_from-append (d ∷ cur) [] t h = refl
lines_from-append [] (c ∷ s) t h =
    rw (reverse-cons, append_assoc) (ground (arith, lines_from-append (c ∷ []) s t))
lines_from-append (d ∷ cur) (c ∷ s) t h =
    rw (reverse-cons c s, append_assoc) (ground (arith, lines_from-append (c ∷ d ∷ cur) s t))

-- A line that is closed by `\n` is the first line.
pub lines-cons : (s t : Text) → is_line s ≡ true → lines (s ++ 0xa ∷ t) ≡ s ∷ lines t
unfolding lines
lines-cons s t h = rw (
  lines_from-append [] s t (ground arith),
  append-nil,
  close_line-lacks (reverse s) (all-reverse (λ c. not (c == 0xd)) s (ground arith)),
  reverse-reverse,
)

pub lines-nil : lines [] ≡ []
unfolding lines
lines-nil = refl

lines_test : lines (97 ∷ 13 ∷ 10 ∷ 10 ∷ 98 ∷ 13 ∷ []) ≡ (97 ∷ []) ∷ [] ∷ (98 ∷ 13 ∷ []) ∷ []
unfolding lines
lines_test = refl
