-- ===== src/Base/Fields.antt =====
-- `strings.Fields`, and `strings.ToLower` of ASCII letters.
use grpm.Base.{ℕ, ◌+◌, List, [], ◌∷◌, ◌++◌, Text, leb, ◌&&◌, if◌then◌else◌, is_space}

-- A word that is not empty.
unfoldable pub word : Text → List Text
word [] = []
word (c ∷ s) = (c ∷ s) ∷ []

-- `current` is the word before `s`.
unfoldable pub fields_from : Text → Text → List Text
unfolding word is_space
fields_from current [] = word current
fields_from current (c ∷ s) =
    let fresh = fields_from [] s in
    let longer = fields_from (current ++ c ∷ []) s in
    if is_space c then word current ++ fresh else longer

unfoldable pub fields : Text → List Text
unfolding fields_from
fields s = fields_from [] s

abbrev pub lower : ℕ → ℕ
lower c = if leb b'A' c && leb c b'Z' then c + 32 else c

unfoldable pub to_lower : Text → Text
to_lower [] = []
to_lower (c ∷ s) = lower c ∷ to_lower s
