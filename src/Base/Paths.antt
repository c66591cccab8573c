-- ===== src/Base/Paths.antt =====
-- `Clean`, `Dir`, `Base` and `Join` of the path/filepath package, for paths with slashes.
use mathlib.Core.List.{reverse}
use grpm.Base.{
  Bool, true, false, ◌||◌, List, [], ◌∷◌, ◌++◌, ◌==◌, if◌then◌else◌, Text, codes, text_eq, split_on,
}

abbrev pub no_text : Text → Bool
no_text [] = true
no_text (c ∷ s) = false

-- The parts on the stack that `..` takes the last one off; a rooted path has nothing above its root.
unfoldable pub parent_of : Bool → List Text → List Text
unfolding text_eq
parent_of true [] = []
parent_of false [] = codes ".." ∷ []
parent_of rooted (p ∷ parts) = if text_eq p (codes "..") then codes ".." ∷ p ∷ parts else parts

unfoldable pub clean_parts : Bool → List Text → List Text → List Text
unfolding text_eq parent_of
clean_parts rooted [] parts = parts
clean_parts rooted (p ∷ ps) parts = clean_parts rooted ps (
    if no_text p || text_eq p (codes ".")
    then parts
    else if text_eq p (codes "..")
    then parent_of rooted parts
    else p ∷ parts)

unfoldable pub join_parts : List Text → Text
join_parts [] = []
join_parts (p ∷ []) = p
join_parts (p ∷ q ∷ parts) = p ++ (codes "/" ++ join_parts (q ∷ parts))

unfoldable pub is_rooted : Text → Bool
is_rooted [] = false
is_rooted (c ∷ s) = c == b'/'

abbrev pub or_dot : Text → Text
or_dot [] = codes "."
or_dot (c ∷ s) = c ∷ s

unfoldable pub clean : Text → Text
unfolding clean_parts join_parts is_rooted split_on
clean path =
    let body = join_parts (reverse (clean_parts (is_rooted path) (split_on b'/' path) [])) in
    if is_rooted path then codes "/" ++ body else or_dot body

unfoldable pub last_part : List Text → Text → Text
last_part [] last = last
last_part (p ∷ parts) last = last_part parts (if no_text p then last else p)

-- `Base`.
unfoldable pub base : Text → Text
unfolding last_part split_on
base path = if no_text path then codes "." else last_part (split_on b'/' path) (codes "/")

abbrev pub without_last : List Text → List Text
without_last [] = []
without_last (p ∷ []) = []
without_last (p ∷ q ∷ parts) = p ∷ without_last (q ∷ parts)

-- `Dir`: what stands before the last slash, with the slash of the root.
unfoldable pub dir : Text → Text
unfolding clean join_parts split_on is_rooted
dir path =
    let before = join_parts (without_last (split_on b'/' path)) in
    clean (if is_rooted path then codes "/" ++ before else before)

unfoldable pub join : Text → Text → Text
unfolding clean
join directory name = clean (directory ++ (codes "/" ++ name))
