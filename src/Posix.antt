-- ===== src/Posix.antt =====
-- `pathlib.PurePosixPath`, as far as src/python-sdk-v2 uses it: a root and the parts between
-- slashes, without the empty ones and the dots.
use mlops_templates.Prelude.{
  ℕ, Bool, false, not, ◌&&◌, ◌||◌, List, [], ◌∷◌, ◌++◌, ◌==◌, if◌then◌else◌,
}
use mlops_templates.Text.{Text, str, str_eq, is_empty}

-- The first piece grows by a character.
abbrev pub grow : ℕ → List Text → List Text
grow c [] = (c ∷ []) ∷ []
grow c (piece ∷ pieces) = (c ∷ piece) ∷ pieces

-- `s.split("/")`
unfoldable pub split_slash : Text → List Text
split_slash [] = [] ∷ []
split_slash (c ∷ s) = let rest = split_slash s in if c == b'/' then [] ∷ rest else grow c rest

abbrev pub starts_with_slash : Text → Bool
starts_with_slash [] = false
starts_with_slash (c ∷ s) = c == b'/'

-- The root: two slashes stay two, any other number is one.
unfoldable pub root : Text → Text
root [] = []
root (c ∷ []) = if c == b'/' then str "/" else []
root (c ∷ d ∷ s) =
    if not (c == b'/')
    then []
    else if d == b'/' && not (starts_with_slash s)
    then str "//"
    else str "/"

abbrev pub dot : Text
dot = str "."

abbrev pub dot_dot : Text
dot_dot = str ".."

unfoldable pub keep_names : List Text → List Text
keep_names [] = []
keep_names (piece ∷ pieces) =
    let rest = keep_names pieces in
    if is_empty piece || str_eq piece dot then rest else piece ∷ rest

-- The parts behind the root.
unfoldable pub names : Text → List Text
unfolding split_slash keep_names
names s = keep_names (split_slash s)

-- `PurePosixPath(s).is_absolute()`
unfoldable pub is_absolute : Text → Bool
is_absolute s = starts_with_slash s

-- `PurePosixPath(s).parts`
unfoldable pub parts : Text → List Text
unfolding root names
parts s = if is_absolute s then root s ∷ names s else names s

unfoldable pub join_slash : List Text → Text
join_slash [] = []
join_slash (piece ∷ []) = piece
join_slash (piece ∷ next ∷ pieces) = piece ++ (b'/' ∷ join_slash (next ∷ pieces))

-- `PurePosixPath(s).as_posix()`
unfoldable pub as_posix : Text → Text
unfolding join_slash root names
as_posix s = let whole = root s ++ join_slash (names s) in if is_empty whole then dot else whole
