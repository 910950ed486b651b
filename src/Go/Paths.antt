-- ===== src/Go/Paths.antt =====
-- path.Clean, and filepath.Clean, Join, IsAbs and Base on a Unix system.
pub mod Laws
pub mod Relative
use maclet.Prelude.{
  ℕ, Bool, true, false, not, ◌||◌, ◌&&◌, List, [], ◌∷◌, ◌++◌, ◌==◌, text_eq_instance, eqb,
  if◌then◌else◌,
}
use maclet.Prelude.Text.{Text, codes, split, join, has_prefix, trim_right}
use mathlib.Core.List.{reverse}

abbrev pub dot : Text
dot = codes "."

abbrev pub dot_dot : Text
dot_dot = codes ".."

unfoldable pub is_abs : Text → Bool
is_abs [] = false
is_abs (c ∷ s) = eqb c b'/'

-- What a `..` does to the components so far, newest first.
unfoldable pub go_up : Bool → List Text → List Text
go_up rooted [] = if rooted then [] else dot_dot ∷ []
go_up rooted (c ∷ above) = if c == dot_dot then dot_dot ∷ c ∷ above else above

unfoldable pub resolve : Bool → List Text → List Text → List Text
unfolding go_up
resolve rooted above [] = above
resolve rooted above (c ∷ cs) =
    if c == [] || c == dot
    then resolve rooted above cs
    else if c == dot_dot
    then resolve rooted (go_up rooted above) cs
    else resolve rooted (c ∷ above) cs

-- The components of a path, newest first, after `.` and `..` are gone where they can be
unfoldable pub components : Text → List Text
unfolding resolve split
components p = resolve (is_abs p) [] (split b'/' p)

unfoldable pub render : Bool → List Text → Text
unfolding join
render true cs = b'/' ∷ join (codes "/") (reverse cs)
render false [] = dot
render false (c ∷ cs) = join (codes "/") (reverse (c ∷ cs))

unfoldable pub clean : Text → Text
unfolding components render is_abs
clean p = render (is_abs p) (components p)

-- filepath.Join of two paths; an empty one is left out.
unfoldable pub join_paths : Text → Text → Text
unfolding clean
join_paths [] [] = []
join_paths [] (c ∷ q) = clean (c ∷ q)
join_paths (c ∷ p) [] = clean (c ∷ p)
join_paths (c ∷ p) (d ∷ q) = clean (c ∷ p ++ b'/' ∷ d ∷ q)

abbrev last : Text → List Text → Text
last d [] = d
last d (c ∷ cs) = last c cs

-- filepath.Base
unfoldable pub base : Text → Text
unfolding trim_right split
base p =
    let trimmed = trim_right (λ c. eqb c b'/') p in
    if p == [] then dot else if trimmed == [] then codes "/" else last [] (split b'/' trimmed)
