-- ===== src/Prelude/Paths.antt =====
-- `std::path::Path` on Unix. Rust compares, joins and takes apart paths by their components, so a path
-- is the list of these.
use Prim.Native.Nat.{ℕ}
use mathlib.Core.Path.{◌≡◌, refl, ap}
use mathlib.Core.Bool.{Bool, true, false, ◌&&◌, ◌||◌}
use mathlib.Core.List.{List, [], ◌∷◌, ◌++◌}
use mathlib.Core.Option.{Option, none, some}
use native.Mathlib.Omega.{arith}
use lfs_cloud.Prelude.Tests.{ltb, ◌==◌, if◌then◌else◌}
use lfs_cloud.Prelude.Text.{Text, text_eq, text_ltb, text_eq_iff, text_eq_refl}

pub data Component : Type 0 where
  root_dir cur_dir parent_dir : Component
  normal : Text → Component

abbrev pub PathBuf : Type 0
PathBuf = List Component

-- The parts between the separators, which are single bytes.
unfoldable pub split_at : ℕ → List ℕ → List (List ℕ)
split_at d [] = [] ∷ []
split_at d (c ∷ s) = elim (split_at d s) [
  | [] ↦ (c ∷ []) ∷ []
  | part ∷ parts ↦ if c == d then [] ∷ part ∷ parts else (c ∷ part) ∷ parts
]

abbrev pub component : Text → Component
component part = if text_eq part (b'.' ∷ b'.' ∷ []) then parent_dir else normal part

-- Empty parts and dots are no components, except at the start.
unfoldable pub later_components : List Text → PathBuf
later_components [] = []
later_components (part ∷ parts) =
    let rest = later_components parts in
    if text_eq part [] || text_eq part (b'.' ∷ []) then rest else component part ∷ rest

abbrev pub first_component : Text → List Text → PathBuf
first_component part [] =
    if text_eq part []
    then []
    else if text_eq part (b'.' ∷ [])
    then cur_dir ∷ []
    else component part ∷ []
first_component part (next ∷ parts) =
    let rest = later_components (next ∷ parts) in
    if text_eq part []
    then root_dir ∷ rest
    else if text_eq part (b'.' ∷ [])
    then cur_dir ∷ rest
    else component part ∷ rest

-- Path::components
unfoldable pub components : List ℕ → PathBuf
components bytes = elim (split_at b'/' bytes) [
  | [] ↦ []
  | part ∷ parts ↦ first_component part parts
]

abbrev pub is_absolute : PathBuf → Bool
is_absolute (root_dir ∷ _) = true
is_absolute _ = false

abbrev pub is_normal : Component → Bool
is_normal (normal _) = true
is_normal _ = false

-- Path::join
abbrev pub join : PathBuf → PathBuf → PathBuf
join [] path = path
join (c ∷ base) [] = c ∷ base
join (c ∷ base) (root_dir ∷ path) = root_dir ∷ path
join (c ∷ base) (cur_dir ∷ path) = (c ∷ base) ++ path
join (c ∷ base) (parent_dir ∷ path) = (c ∷ base) ++ parent_dir ∷ path
join (c ∷ base) (normal s ∷ path) = (c ∷ base) ++ normal s ∷ path

-- What is before the last component, and that component.
unfoldable pub split_last : PathBuf → Option (PathBuf × Component)
split_last [] = none
split_last (c ∷ path) = elim (split_last path) [
  | none ↦ some ([], c)
  | some (start, last) ↦ some (c ∷ start, last)
]

abbrev pub parent_of : Option (PathBuf × Component) → Option PathBuf
parent_of none = none
parent_of (some (start, root_dir)) = none
parent_of (some (start, cur_dir)) = some start
parent_of (some (start, parent_dir)) = some start
parent_of (some (start, normal s)) = some start

-- Path::parent
abbrev pub parent : PathBuf → Option PathBuf
parent path = parent_of (split_last path)

abbrev pub name_of : Option (PathBuf × Component) → Option Text
name_of (some (start, normal s)) = some s
name_of _ = none

-- Path::last_name
abbrev pub last_name : PathBuf → Option Text
last_name path = name_of (split_last path)

-- The order of the variants of `Component`, and of the bytes of names.
abbrev pub rank : Component → ℕ
rank root_dir = 0
rank cur_dir = 1
rank parent_dir = 2
rank (normal s) = 3

abbrev pub bytes_of : Component → Text
bytes_of (normal s) = s
bytes_of _ = []

abbrev pub component_eq : Component → Component → Bool
component_eq c d = rank c == rank d && text_eq (bytes_of c) (bytes_of d)

abbrev pub component_ltb : Component → Component → Bool
component_ltb c d =
    ltb (rank c) (rank d) || (rank c == rank d && text_ltb (bytes_of c) (bytes_of d))

unfoldable pub path_eq : PathBuf → PathBuf → Bool
path_eq [] [] = true
path_eq (c ∷ p) (d ∷ q) = component_eq c d && path_eq p q
path_eq _ _ = false

unfoldable pub path_ltb : PathBuf → PathBuf → Bool
path_ltb [] [] = false
path_ltb [] (d ∷ q) = true
path_ltb (c ∷ p) [] = false
path_ltb (c ∷ p) (d ∷ q) = component_ltb c d || (component_eq c d && path_ltb p q)

text_eq_sym : (s t : Text) → text_eq s t ≡ text_eq t s
unfolding text_eq
text_eq_sym [] [] = refl
text_eq_sym [] (d ∷ t) = refl
text_eq_sym (c ∷ s) [] = refl
text_eq_sym (c ∷ s) (d ∷ t) = rw (text_eq_sym s t) (ground arith)

component_eq_sym : (c d : Component) → component_eq c d ≡ component_eq d c
component_eq_sym c d = rw (text_eq_sym (bytes_of c) (bytes_of d)) (ground arith)

pub path_eq_sym : (p q : PathBuf) → path_eq p q ≡ path_eq q p
unfolding path_eq
path_eq_sym [] [] = refl
path_eq_sym [] (d ∷ q) = refl
path_eq_sym (c ∷ p) [] = refl
path_eq_sym (c ∷ p) (d ∷ q) = rw (path_eq_sym p q, component_eq_sym c d) refl

component_eq_refl : (c : Component) → component_eq c c ≡ true
component_eq_refl c = rw (text_eq_refl (bytes_of c)) (ground arith)

pub path_eq_refl : (p : PathBuf) → path_eq p p ≡ true
unfolding path_eq
path_eq_refl [] = refl
path_eq_refl (c ∷ p) = rw (path_eq_refl p, component_eq_refl c) refl

component_eq-≡ : (c d : Component) → component_eq c d ≡ true → c ≡ d
component_eq-≡ root_dir root_dir h = refl
component_eq-≡ cur_dir cur_dir h = refl
component_eq-≡ parent_dir parent_dir h = refl
component_eq-≡ (normal s) (normal t) h = ap normal ((text_eq_iff s t).0 h)
component_eq-≡ root_dir cur_dir h = absurd cc
component_eq-≡ root_dir parent_dir h = absurd cc
component_eq-≡ root_dir (normal t) h = absurd cc
component_eq-≡ cur_dir root_dir h = absurd cc
component_eq-≡ cur_dir parent_dir h = absurd cc
component_eq-≡ cur_dir (normal t) h = absurd cc
component_eq-≡ parent_dir root_dir h = absurd cc
component_eq-≡ parent_dir cur_dir h = absurd cc
component_eq-≡ parent_dir (normal t) h = absurd cc
component_eq-≡ (normal s) root_dir h = absurd cc
component_eq-≡ (normal s) cur_dir h = absurd cc
component_eq-≡ (normal s) parent_dir h = absurd cc

and_lem : (b c : Bool) → (b && c) ≡ true → (b ≡ true) × (c ≡ true)
and_lem true true h = (refl, refl)
and_lem true false h = absurd cc
and_lem false c h = absurd cc

pub path_eq-≡ : (p q : PathBuf) → path_eq p q ≡ true → p ≡ q
unfolding path_eq
path_eq-≡ [] [] h = refl
path_eq-≡ [] (d ∷ q) h = absurd cc
path_eq-≡ (c ∷ p) [] h = absurd cc
path_eq-≡ (c ∷ p) (d ∷ q) h =
    let (e, f) = and_lem (component_eq c d) (path_eq p q) h in
    rw (component_eq-≡ c d e, path_eq-≡ p q f) refl
