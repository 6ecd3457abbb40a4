-- ===== src/FilePaths.antt =====
-- path/filepath of Go on unix, as the sources use it: Clean and Join, on byte strings.
use replicated_file_system.Common.{
  ℕ, Bool, true, false, ◌||◌, List, [], ◌∷◌, ◌++◌, Text, codes, text_eq, ◌==◌, if◌then◌else◌,
}
use mathlib.Core.List.{reverse}

-- b'/' is the separator.
abbrev pub slash : ℕ
slash = b'/'

abbrev pub dot : Text
dot = codes "."

abbrev pub dot_dot : Text
dot_dot = codes ".."

add_byte : ℕ → List Text → List Text
add_byte c [] = (c ∷ []) ∷ []
add_byte c (w ∷ ws) = (c ∷ w) ∷ ws

-- The elements between the separators; there is always one more than separators.
unfoldable pub split : Text → List Text
unfolding add_byte
split [] = [] ∷ []
split (c ∷ s) = let rest = split s in if c == slash then [] ∷ rest else add_byte c rest

unfoldable pub is_rooted : Text → Bool
is_rooted [] = false
is_rooted (c ∷ s) = c == slash

-- `..` takes the last element back, unless there is none to take.
unfoldable pub go_up : Bool → List Text → List Text
go_up rooted [] = if rooted then [] else dot_dot ∷ []
go_up rooted (w ∷ ws) = if text_eq w dot_dot then dot_dot ∷ w ∷ ws else ws

-- One element; the elements so far are in reverse.
unfoldable pub push_element : Bool → Text → List Text → List Text
unfolding go_up
push_element rooted w out =
    if text_eq w [] || text_eq w dot
    then out
    else if text_eq w dot_dot
    then go_up rooted out
    else w ∷ out

unfoldable pub push_elements : Bool → List Text → List Text → List Text
unfolding push_element
push_elements rooted [] out = out
push_elements rooted (w ∷ ws) out = push_elements rooted ws (push_element rooted w out)

unfoldable pub join_with_slash : List Text → Text
join_with_slash [] = []
join_with_slash (w ∷ []) = w
join_with_slash (w ∷ v ∷ ws) = w ++ (slash ∷ join_with_slash (v ∷ ws))

unfoldable pub render : Bool → List Text → Text
unfolding join_with_slash
render true ws = slash ∷ join_with_slash ws
render false [] = dot
render false (w ∷ ws) = join_with_slash (w ∷ ws)

unfoldable pub clean : Text → Text
unfolding split is_rooted push_elements render
clean s = render (is_rooted s) (reverse (push_elements (is_rooted s) (split s) []))

-- Join of two elements: empty leading elements are left out.
unfoldable pub join : Text → Text → Text
unfolding clean
join [] [] = []
join [] (c ∷ t) = clean (c ∷ t)
join (b ∷ s) t = clean ((b ∷ s) ++ (slash ∷ t))
