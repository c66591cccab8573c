-- ===== src/Solver/Depclean/Visit.antt =====
-- The loop over the dependencies in `markNeededPackages` of internal/solver/depclean.go: what it marks
-- and what it queues.
use grpm.Base.{
  ◌≡◌, inl, inr, ap, arith, true, not, ◌&&◌, ◌||◌, List, [], ◌∷◌, ◌++◌, Bool-cases, Text, text_eq,
  text_eq_iff,
}
use grpm.Base.Assoc.{contains, contains-append}
use grpm.Solver.BaseAtom.{extract_base_atom}
use grpm.Solver.Depclean.Search.{mark, mark_all, visit_dependencies}

abbrev pub bases : List Text → List Text
bases [] = []
bases (a ∷ l) = extract_base_atom a ∷ bases l

pub contains-bases :
    (b : Text) (l : List Text)
    → contains b (bases l) ≡ true
    → (a : Text) × (contains a l ≡ true) × (extract_base_atom a ≡ b)
unfolding contains
contains-bases b [] h = cc
contains-bases b (a ∷ l) h = elim (Bool-cases (text_eq (extract_base_atom a) b)) [
  | inl e ↦ (a, ground (arith, text_eq_iff a a), (text_eq_iff _ _).0 e)
  | inr e ↦ let (c, m, q) = contains-bases b l (ground arith) in (c, ground arith, q)
]

pub contains_base :
    (a : Text) (l : List Text)
    → contains a l ≡ true
    → contains (extract_base_atom a) (bases l) ≡ true
unfolding contains
contains_base a [] h = cc
contains_base a (c ∷ l) h = ground (
  arith,
  contains_base a l,
  text_eq_iff c a,
  text_eq_iff (extract_base_atom c) (extract_base_atom a),
  ap extract_base_atom,
)

contains-mark : (a b : Text) (l : List Text) → contains a (mark b l) ≡ (contains a l || text_eq b a)
unfolding mark contains
contains-mark a b l = ground (arith, contains-append a l (b ∷ []), text_eq_iff b a)

pub contains-mark_all :
    (a : Text) (atoms l : List Text)
    → contains a (mark_all atoms l) ≡ (contains a l || contains a (bases atoms))
unfolding mark_all contains
contains-mark_all a [] l = ground arith
contains-mark_all a (c ∷ atoms) l = ground (
  arith,
  contains-mark_all a atoms (mark (extract_base_atom c) l),
  contains-mark a (extract_base_atom c) l,
)

module _ (a : Text) where
  pub visit_needed :
      (deps needed queue : List Text)
      → contains a (visit_dependencies deps needed queue).0
        ≡ (contains a needed || contains a (bases deps))
  unfolding visit_dependencies contains
  visit_needed [] needed queue = ground arith
  visit_needed (d ∷ deps) needed queue =
      let b = extract_base_atom d in
      ground (
        arith,
        visit_needed deps needed queue,
        visit_needed deps (needed ++ b ∷ []) (queue ++ b ∷ []),
        contains-append a needed (b ∷ []),
        text_eq_iff b a,
      )

  pub visit_queue :
      (deps needed queue : List Text)
      → contains a (visit_dependencies deps needed queue).1
        ≡ (contains a queue || (contains a (bases deps) && not (contains a needed)))
  unfolding visit_dependencies contains
  visit_queue [] needed queue = ground arith
  visit_queue (d ∷ deps) needed queue =
      let b = extract_base_atom d in
      ground (
        arith,
        visit_queue deps needed queue,
        visit_queue deps (needed ++ b ∷ []) (queue ++ b ∷ []),
        contains-append a needed (b ∷ []),
        contains-append a queue (b ∷ []),
        text_eq_iff b a,
      )
