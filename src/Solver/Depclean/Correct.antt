-- ===== src/Solver/Depclean/Correct.antt =====
-- `markNeededPackages` of internal/solver/depclean.go against the packages that are reached from the
-- @world set and the excluded atoms.
use grpm.Base.{
  ℕ, zero, suc, ◌≡◌, ◌↔◌, ◌⊎◌, inl, inr, arith, true, List, [], ◌∷◌, Bool-cases, Text, text_eq_iff,
  ◌||◌,
}
use mathlib.Core.Path.{subst}
use grpm.Base.Assoc.{contains}
use grpm.Base.Result.{ok, ok-injective}
use grpm.Solver.BaseAtom.{extract_base_atom}
use grpm.Solver.Depclean.{ReverseDependencyGraph, get_dependencies}
use grpm.Solver.Depclean.Search.{mark_all, visit_dependencies, search, mark_needed_packages}
use grpm.Solver.Depclean.Visit.{
  bases, contains-bases, contains_base, contains-mark_all, visit_needed, visit_queue,
}
use grpm.Solver.Depclean.Fuel.{mark_needed_packages_returns}

module _ {Atom : Type 0} (g : ReverseDependencyGraph Atom) (exclude world : List Text) where
  -- What has to stay: the bases of the listed atoms, and those of the dependencies of what has to stay.
  pub data Needed : Text → Type 0 where
    excluded : (r : Text) → contains r exclude ≡ true → Needed (extract_base_atom r)
    in_world : (r : Text) → contains r world ≡ true → Needed (extract_base_atom r)
    required :
        (u dep : Text)
        → Needed u
        → contains dep (get_dependencies g u) ≡ true
        → Needed (extract_base_atom dep)

  abbrev start : List Text
  start = mark_all world (mark_all exclude [])

  record Inv (needed processed queue : List Text) : Type 0 where
    sound : (a : Text) → contains a needed ≡ true → Needed a
    grows : (a : Text) → contains a start ≡ true → contains a needed ≡ true
    queued : (a : Text) → contains a queue ≡ true → contains a needed ≡ true
    waiting :
        (a : Text)
        → contains a needed ≡ true
        → (contains a queue ≡ true) ⊎ (contains a processed ≡ true)
    closed :
        (u a : Text)
        → contains u processed ≡ true
        → contains a (bases (get_dependencies g u)) ≡ true
        → contains a needed ≡ true

  start_iff :
      (a : Text) → contains a start ≡ (contains a (bases exclude) || contains a (bases world))
  unfolding contains
  start_iff a =
      ground
        (arith, contains-mark_all a world (mark_all exclude []), contains-mark_all a exclude [])

  start-Needed : (a : Text) → contains a start ≡ true → Needed a
  start-Needed a h = elim (Bool-cases (contains a (bases exclude))) [
    | inl e ↦ let (r, m, q) = contains-bases a exclude e in subst Needed q (excluded r m)
    | inr e ↦
        let (r, m, q) = contains-bases a world (ground (arith, start_iff a)) in
        subst Needed q (in_world r m)
  ]

  Inv-start : Inv start [] start
  unfolding contains
  Inv-start = record {
    sound = start-Needed;
    grows = λ a h. h;
    queued = λ a h. h;
    waiting = λ a h. inl h;
    closed = λ u a h _. cc;
  }

  Inv-skip :
      (needed processed queue : List Text) (u : Text)
      → contains u processed ≡ true
      → Inv needed processed (u ∷ queue)
      → Inv needed processed queue
  unfolding contains
  Inv-skip needed processed queue u p h = record {
    sound = h.sound;
    grows = h.grows;
    queued = λ a q. h.queued a (ground arith);
    waiting = λ a m. ground (arith, h.waiting a m, text_eq_iff u a);
    closed = h.closed;
  }

  Inv-visit :
      (needed processed queue : List Text) (u : Text)
      → Inv needed processed (u ∷ queue)
      → let (needed', queue') = visit_dependencies (get_dependencies g u) needed queue in
        Inv needed' (u ∷ processed) queue'
  unfolding contains
  Inv-visit needed processed queue u h =
      let deps = get_dependencies g u in
      let flags = λ (a : Text). visit_needed a deps needed queue in
      let queues = λ (a : Text). visit_queue a deps needed queue in
      let to_u = h.sound u (h.queued u (ground (arith, text_eq_iff u u))) in
      record {
        sound = λ a m. elim (Bool-cases (contains a needed)) [
          | inl e ↦ h.sound a e
          | inr e ↦
              let (dep, d, q) = contains-bases a deps (ground (arith, flags a)) in
              subst Needed q (required u dep to_u d)
        ];
        grows = λ a m. ground (arith, flags a, h.grows a);
        queued = λ a m. ground (arith, flags a, queues a, h.queued a);
        waiting = λ a m. ground (arith, flags a, queues a, h.waiting a, text_eq_iff u a);
        closed = λ v a p d. ground (arith, flags a, h.closed v a, text_eq_iff u v);
      }

  search-Inv :
      (fuel : ℕ) (needed processed queue t : List Text)
      → Inv needed processed queue
      → search g fuel needed processed queue ≡ ok t
      → (done : List Text) × Inv t done []
  unfolding search
  search-Inv fuel needed processed [] t h e =
      (processed, subst (λ n. Inv n processed []) (ok-injective e) h)
  search-Inv zero needed processed (u ∷ queue) t h e = cc
  search-Inv (suc fuel) needed processed (u ∷ queue) t h e =
      elim (Bool-cases (contains u processed)) [
        | inl p ↦
            search-Inv fuel needed processed queue t (Inv-skip needed processed queue u p h)
              (rw (p) at e)
        | inr p ↦
            let (needed', queue') = visit_dependencies (get_dependencies g u) needed queue in
            search-Inv fuel needed' (u ∷ processed) queue' t (Inv-visit needed processed queue u h)
              (rw (p) at e)
      ]

  complete : (t done : List Text) → Inv t done [] → (a : Text) → Needed a → contains a t ≡ true
  unfolding contains
  complete t done h a (excluded r m) =
      h.grows _ (ground (arith, start_iff (extract_base_atom r), contains_base r exclude m))
  complete t done h a (in_world r m) =
      h.grows _ (ground (arith, start_iff (extract_base_atom r), contains_base r world m))
  complete t done h a (required u dep n d) =
      h.closed u _ (ground (arith, h.waiting u, complete t done h u n)) (contains_base dep _ d)

  -- On every graph, list of excluded atoms and world set the search for needed packages ends, and
  -- it marks exactly the atoms that have to stay: the bases of the listed atoms, and those of the
  -- dependencies of what has to stay.
  pub mark_needed_packages-Needed :
      (t : List Text) × (mark_needed_packages g exclude world ≡ ok t)
      × ((a : Text) → (contains a t ≡ true) ↔ Needed a)
  unfolding mark_needed_packages
  mark_needed_packages-Needed =
      let (t, e) = mark_needed_packages_returns g exclude world in
      let (done, inv) = search-Inv _ start [] start t Inv-start e in
      (t, e, λ a. (inv.sound a, complete t done inv a))
