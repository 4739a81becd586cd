-- ===== src/Slash.antt =====
-- The functions of Go's `path` and `strings` packages on texts with slashes: Split on "/", Clean and
-- Join.
pub mod Laws
pub mod Ends
use log_forge.Prelude.{
  ℕ, Bool, true, false, List, [], ◌∷◌, ◌++◌, ◌==◌, if◌then◌else◌, is_empty, ◌||◌,
}
use log_forge.Text.{Text, codes, text_eq, has_prefix}

-- A code in front of the first part.
unfoldable pub push : ℕ → List Text → List Text
push c [] = (c ∷ []) ∷ []
push c (part ∷ parts) = (c ∷ part) ∷ parts

-- `strings.Split(s, "/")`.
unfoldable pub split : Text → List Text
unfolding push
split [] = [] ∷ []
split (c ∷ s) = let parts = split s in if c == b'/' then [] ∷ parts else push c parts

-- `strings.Join(parts, "/")`.
unfoldable pub join : List Text → Text
join [] = []
join (part ∷ []) = part
join (part ∷ (next ∷ parts)) = part ++ (b'/' ∷ join (next ∷ parts))

-- What path.Clean does with the part `..`; the parts before it come last first.
unfoldable pub back : Bool → List Text → List Text
unfolding text_eq
back rooted [] = if rooted then [] else codes ".." ∷ []
back rooted (part ∷ parts) =
    if text_eq part (codes "..") then codes ".." ∷ (part ∷ parts) else parts

unfoldable pub clean_part : Bool → Text → List Text → List Text
unfolding back text_eq
clean_part rooted part parts =
    if is_empty part || text_eq part (codes ".")
    then parts
    else if text_eq part (codes "..")
    then back rooted parts
    else part ∷ parts

unfoldable pub clean_parts : Bool → List Text → List Text → List Text
unfolding clean_part
clean_parts rooted [] parts = parts
clean_parts rooted (part ∷ rest) parts = clean_parts rooted rest (clean_part rooted part parts)

unfoldable pub reverse_onto : List Text → List Text → List Text
reverse_onto [] parts = parts
reverse_onto (part ∷ before) parts = reverse_onto before (part ∷ parts)

-- `path.Clean`.
unfoldable pub clean : Text → Text
unfolding split clean_parts reverse_onto join has_prefix
clean s =
    let rooted = has_prefix (codes "/") s in
    let parts = clean_parts rooted (split s) [] in
    if rooted
    then b'/' ∷ join (reverse_onto parts [])
    else if is_empty parts
    then codes "."
    else join (reverse_onto parts [])

-- `path.Join`: empty elements in front are left out; without any element left the result is empty.
unfoldable pub path_join : List Text → Text
unfolding clean join
path_join [] = []
path_join (elem ∷ elems) =
    let rest = path_join elems in if is_empty elem then rest else clean (join (elem ∷ elems))
