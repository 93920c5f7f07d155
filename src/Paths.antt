-- ===== src/Paths.antt =====
-- Go's slash-separated paths, as the program uses them: path.Clean of a rooted path, filepath.Join
-- below an absolute directory.
pub mod Split
pub mod Resolve
use soft_serve.Base.{List, [], ◌∷◌, ◌++◌, Text, str, text_eq, ◌||◌, ◌==◌, ℕ, if◌then◌else◌}
use mathlib.Core.List.{reverse, tail}

abbrev pub push : ℕ → List Text → List Text
push c [] = (c ∷ []) ∷ []
push c (w ∷ ws) = (c ∷ w) ∷ ws

-- the parts of a path between its slashes
unfoldable pub split : Text → List Text
split [] = [] ∷ []
split (c ∷ s) = let parts = split s in if c == b'/' then [] ∷ parts else push c parts

unfoldable pub join : List Text → Text
join [] = []
join (w ∷ []) = w
join (w ∷ v ∷ ws) = w ++ b'/' ∷ join (v ∷ ws)

-- one part of a rooted path; the stack has the last kept part at its head
unfoldable pub resolve : List Text → Text → List Text
resolve stack part =
    if text_eq part [] || text_eq part (str ".")
    then stack
    else if text_eq part (str "..")
    then tail stack
    else part ∷ stack

unfoldable pub resolve_all : List Text → List Text → List Text
unfolding resolve
resolve_all stack [] = reverse stack
resolve_all stack (part ∷ parts) = resolve_all (resolve stack part) parts

-- path.Clean("/" + s)
unfoldable pub clean_rooted : Text → Text
clean_rooted s = b'/' ∷ join (resolve_all [] (split s))

-- filepath.Join(dir, s) for an absolute clean directory: the parts of the result
unfoldable pub join_below : List Text → Text → List Text
join_below dir s = resolve_all (reverse dir) (split s)
