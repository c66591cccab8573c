-- ===== src/Solver/Depclean/Fuel.antt =====
-- The rounds of the loop over the queue in `markNeededPackages` of internal/solver/depclean.go.
use grpm.Base.{
  ℕ, zero, suc, ◌+◌, ◌≤◌, ◌≡◌, refl, arith, true, false, List, [], ◌∷◌, ◌++◌, length, if◌then◌else◌,
  Bool-cases, Text, text_eq_iff, length-append, inl, inr,
}
use grpm.Base.Assoc.{contains, contains-append, contains-count, count, lookup}
use grpm.Base.Result.{ok}
use grpm.Solver.BaseAtom.{extract_base_atom}
use grpm.Solver.Depclean.{ReverseDependencyGraph, atoms_at, get_dependencies}
use grpm.Solver.Depclean.Search.{
  mark_all, visit_dependencies, edge_count, search, mark_needed_packages,
}
use grpm.Solver.Depclean.Visit.{bases}

-- The atoms of `all` that are not marked yet, as often as they stand there.
unfoldable pub unmarked : List Text → List Text → ℕ
unfolding contains
unmarked [] needed = 0
unmarked (a ∷ all) needed = (if contains a needed then 0 else 1) + unmarked all needed

unmarked-append :
    (b : Text) (all needed : List Text)
    → contains b needed ≡ false
    → unmarked all (needed ++ b ∷ []) + count b all ≡ unmarked all needed
unfolding unmarked contains count
unmarked-append b [] needed h = refl
unmarked-append b (a ∷ all) needed h = ground (
  arith,
  unmarked-append b all needed,
  contains-append a needed (b ∷ []),
  text_eq_iff b a,
  text_eq_iff a b,
)

unmarked-le : (all needed : List Text) → unmarked all needed ≤ length all
unfolding unmarked
unmarked-le [] needed = omega arith
unmarked-le (a ∷ all) needed = ground (arith, unmarked-le all needed)

abbrev Within : List Text → List Text → Type 0
Within l all = (b : Text) → contains b l ≡ true → contains b all ≡ true

visit_work :
    (all deps needed queue : List Text)
    → Within (bases deps) all
    → let (needed', queue') = visit_dependencies deps needed queue in
      length queue' + unmarked all needed' ≤ length queue + unmarked all needed
unfolding visit_dependencies contains
visit_work all [] needed queue h = omega arith
visit_work all (d ∷ deps) needed queue h =
    let b = extract_base_atom d in
    ground (
      arith,
      visit_work all deps needed queue (λ c m. h c (ground arith)),
      visit_work all deps (needed ++ b ∷ []) (queue ++ b ∷ []) (λ c m. h c (ground arith)),
      unmarked-append b all needed,
      contains-count b all,
      h b (ground (arith, text_eq_iff b b)),
      length-append queue (b ∷ []),
    )

abbrev targets : List (Text × List Text) → List Text
targets [] = []
targets ((k, l) ∷ m) = bases l ++ targets m

length-bases : (l : List Text) → length (bases l) ≡ length l
length-bases [] = refl
length-bases (a ∷ l) = omega (arith, length-bases l)

length-targets : (m : List (Text × List Text)) → length (targets m) ≡ edge_count m
unfolding edge_count
length-targets [] = refl
length-targets ((k, l) ∷ m) =
    omega (arith, length-targets m, length-append (bases l) (targets m), length-bases l)

targets-Within :
    (k : Text) (m : List (Text × List Text)) → Within (bases (atoms_at k m)) (targets m)
unfolding atoms_at lookup contains
targets-Within k [] b h = cc
targets-Within k ((j, l) ∷ m) b h =
    ground (arith, targets-Within k m b, contains-append b (bases l) (targets m))

module _ {Atom : Type 0} (g : ReverseDependencyGraph Atom) where
  abbrev all : List Text
  all = targets g.dependencies

  search_ends :
      (fuel : ℕ) (needed processed queue : List Text)
      → length queue + unmarked all needed ≤ fuel
      → (t : List Text) × (search g fuel needed processed queue ≡ ok t)
  unfolding search
  search_ends fuel needed processed [] h = (needed, ground arith)
  search_ends zero needed processed (u ∷ queue) h = absurd (omega arith)
  search_ends (suc fuel) needed processed (u ∷ queue) h =
      let deps = get_dependencies g u in
      let (needed', queue') = visit_dependencies deps needed queue in
      let work =
        visit_work all deps needed queue (targets-Within (extract_base_atom u) g.dependencies) in
      let (t, skipped) = search_ends fuel needed processed queue (omega arith) in
      let (t', visited) = search_ends fuel needed' (u ∷ processed) queue' (omega (arith, work)) in
      elim (Bool-cases (contains u processed)) [
        | inl e ↦ (t, rw (e) skipped)
        | inr e ↦ (t', rw (e) visited)
      ]

  pub mark_needed_packages_returns :
      (exclude world : List Text) → (t : List Text) × (mark_needed_packages g exclude world ≡ ok t)
  unfolding mark_needed_packages
  mark_needed_packages_returns exclude world =
      let needed = mark_all world (mark_all exclude []) in
      search_ends _ needed [] needed
        (omega (arith, unmarked-le all needed, length-targets g.dependencies))
