-- ===== src/Solver/Depclean/Safe.antt =====
-- `Calculate` of internal/solver/depclean.go: which installed packages are orphans.
use grpm.Base.{
  ◌≡◌, ◌↔◌, inl, inr, refl, arith, Bool, true, Option, none, some, not, ◌&&◌, ◌||◌, List, [], ◌∷◌,
  ◌++◌, is_some, Option-cases, Text, text_eq, text_eq_iff,
}
use grpm.Base.Assoc.{contains, contains-append, keys, lookup, lookup-insert}
use grpm.Base.Sort.{keys_by, contains-sort, contains-sort_by}
use grpm.Base.Result.{ok}
use grpm.State.Sets.{PackageSet}
use grpm.Solver.BaseAtom.{extract_base_atom, extract_package_atom}
use grpm.State.Installed.{InstalledPackage}
use grpm.State.Database.{PackageDatabase, list_packages}
use grpm.Solver.Depclean.{ReverseDependencyGraph, new_graph, add_package, build_graph, get_package}
use grpm.Solver.Depclean.Search.{mark_needed_packages}
use grpm.Solver.Depclean.Correct.{Needed, mark_needed_packages-Needed}
use grpm.Solver.Depclean.Orphans.{
  OrphanInfo, DepcleanResult, DepcleanCalculator, all_atoms, orphan_of, sort_out, find_loop,
  find_orphans, load_world_set, calculate,
}

abbrev pub orphan_atoms : List OrphanInfo → List Text
orphan_atoms = keys_by (λ o. o.atom)

orphan_atoms-append :
    (k : Text) (l r : List OrphanInfo)
    → contains k (orphan_atoms (l ++ r))
      ≡ (contains k (orphan_atoms l) || contains k (orphan_atoms r))
unfolding contains
orphan_atoms-append k [] r = refl
orphan_atoms-append k (o ∷ l) r = ground (arith, orphan_atoms-append k l r)

module _ {Atom : Type 0} (g : ReverseDependencyGraph Atom) (needed : List Text)
    (world : PackageSet) where
  atom-orphan_of : (a : Text) {o : OrphanInfo} → orphan_of a world g ≡ some o → o.atom ≡ a
  unfolding orphan_of
  atom-orphan_of a {o} h = elim (Option-cases (get_package g a)) [
    | inl e ↦ absurd (ground (arith, h))
    | inr (i, e) ↦ elim (Option-cases i.pkg) [
      | inl q ↦ absurd (ground (arith, h))
      | inr (p, q) ↦ ground (arith, h)
    ]
  ]

  abbrev is_orphan : Text → Bool
  is_orphan a = is_some (orphan_of a world g)

  sort_out-protected :
      (a b : Text) (r : DepcleanResult Atom)
      → contains a (sort_out b needed world g r).protected
        ≡ (contains a r.protected || (text_eq b a && contains a needed))
  unfolding sort_out contains
  sort_out-protected a b r = elim (Option-cases (orphan_of b world g)) [
    | inl e ↦ ground (arith, e, contains-append a r.protected (b ∷ []), text_eq_iff b a)
    | inr (o, e) ↦ ground (arith, e, contains-append a r.protected (b ∷ []), text_eq_iff b a)
  ]

  sort_out-orphans :
      (a b : Text) (r : DepcleanResult Atom)
      → contains a (orphan_atoms (sort_out b needed world g r).orphans) ≡ (
          contains a (orphan_atoms r.orphans)
          || (text_eq b a && (not (contains a needed) && is_orphan a)))
  unfolding sort_out contains
  sort_out-orphans a b r = elim (Option-cases (orphan_of b world g)) [
    | inl e ↦ ground (arith, e, text_eq_iff b a)
    | inr (o, e) ↦ ground (
      arith,
      e,
      orphan_atoms-append a r.orphans (o ∷ []),
      text_eq_iff b a,
      text_eq_iff o.atom a,
      atom-orphan_of b e,
    )
  ]

  find_loop-protected :
      (a : Text) (atoms : List Text) (r : DepcleanResult Atom)
      → contains a (find_loop atoms needed world g r).protected
        ≡ (contains a r.protected || (contains a atoms && contains a needed))
  unfolding find_loop contains
  find_loop-protected a [] r = ground arith
  find_loop-protected a (b ∷ atoms) r =
      ground
        (arith, find_loop-protected a atoms (sort_out b needed world g r), sort_out-protected a b r)

  find_loop-orphans :
      (a : Text) (atoms : List Text) (r : DepcleanResult Atom)
      → contains a (orphan_atoms (find_loop atoms needed world g r).orphans) ≡ (
          contains a (orphan_atoms r.orphans)
          || (contains a atoms && (not (contains a needed) && is_orphan a)))
  unfolding find_loop contains
  find_loop-orphans a [] r = ground arith
  find_loop-orphans a (b ∷ atoms) r =
      ground
        (arith, find_loop-orphans a atoms (sort_out b needed world g r), sort_out-orphans a b r)

  find_orphans-protected :
      (a : Text)
      → contains a (find_orphans g needed world).protected
        ≡ (contains a (keys g.packages) && contains a needed)
  unfolding find_orphans all_atoms contains
  find_orphans-protected a = rw (find_loop-protected, contains-sort) refl

  find_orphans-orphans :
      (a : Text)
      → contains a (orphan_atoms (find_orphans g needed world).orphans)
        ≡ (contains a (keys g.packages) && (not (contains a needed) && is_orphan a))
  unfolding find_orphans all_atoms contains
  find_orphans-orphans a = rw (contains-sort_by, find_loop-orphans, contains-sort) refl

module _ {Atom : Type 0} where
  -- Every package of the graph has its metadata.
  abbrev HasMetadata : ReverseDependencyGraph Atom → Type 0
  HasMetadata g =
      (k : Text) (i : InstalledPackage Atom) → lookup k g.packages ≡ some i → is_some i.pkg ≡ true

  add_package-HasMetadata :
      (g : ReverseDependencyGraph Atom) (p : Option (InstalledPackage Atom))
      → HasMetadata g
      → HasMetadata (add_package g p)
  unfolding add_package
  add_package-HasMetadata g none h = h
  add_package-HasMetadata g (some installed) h = elim (Option-cases installed.pkg) [
    | inl e ↦ rw (e) h
    | inr (p, e) ↦ rw (e) (λ k i q. ground (
      arith,
      e,
      h k i,
      lookup-insert (extract_package_atom p.name p.version) k installed g.packages,
    ))
  ]

  build_graph-HasMetadata :
      (ps : List (InstalledPackage Atom)) (g : ReverseDependencyGraph Atom)
      → HasMetadata g
      → HasMetadata (build_graph ps g)
  unfolding build_graph
  build_graph-HasMetadata [] g h = h
  build_graph-HasMetadata (p ∷ ps) g h =
      build_graph-HasMetadata ps (add_package g (some p)) (add_package-HasMetadata g (some p) h)

  built-HasMetadata : (ps : List (InstalledPackage Atom)) → HasMetadata (build_graph ps new_graph)
  unfolding lookup
  built-HasMetadata ps = build_graph-HasMetadata ps new_graph (λ k i q. cc)

  is_orphan_iff :
      (g : ReverseDependencyGraph Atom) (world : PackageSet) (a : Text)
      → HasMetadata g
      → is_some (orphan_of a world g) ≡ is_some (get_package g a)
  unfolding orphan_of get_package
  is_orphan_iff g world a h = elim (Option-cases (lookup (extract_base_atom a) g.packages)) [
    | inl e ↦ ground (arith, e)
    | inr (i, e) ↦ elim (Option-cases i.pkg) [
      | inl q ↦ absurd (ground (arith, h (extract_base_atom a) i e))
      | inr (p, q) ↦ ground (arith, e, q)
    ]
  ]

  calculate_returns :
      (c : DepcleanCalculator Atom) (db : PackageDatabase Atom) (world : PackageSet) (t : List Text)
      → c.db ≡ some db
      → load_world_set c ≡ ok world
      → mark_needed_packages (build_graph (list_packages db) new_graph) c.opts.exclude world.atoms
        ≡ ok t
      → calculate c ≡ ok (find_orphans (build_graph (list_packages db) new_graph) t world)
  unfolding calculate
  calculate_returns c db world t d w e = ground (arith, d, w, e)

  -- On a database and a world set that is loaded, Calculate returns a result, whose protected
  -- atoms are the atoms of the graph of installed packages that have to stay, and whose orphans
  -- are those that do not have to stay and by whose base the graph has a package.
  pub calculate-Needed :
      (c : DepcleanCalculator Atom) (db : PackageDatabase Atom) (world : PackageSet)
      → c.db ≡ some db
      → load_world_set c ≡ ok world
      → let g = build_graph (list_packages db) new_graph in
        (r : DepcleanResult Atom) × (calculate c ≡ ok r)
        × ((a : Text)
            → (contains a r.protected ≡ true)
              ↔ ((contains a (keys g.packages) ≡ true) × Needed g c.opts.exclude world.atoms a))
        × ((a : Text)
            → (contains a (orphan_atoms r.orphans) ≡ true) ↔ (
                (contains a (keys g.packages) ≡ true)
                × ¬ Needed g c.opts.exclude world.atoms a
                × (is_some (get_package g a) ≡ true)))
  calculate-Needed c db world d w =
      let g = build_graph (list_packages db) new_graph in
      let (t, e, needed) = mark_needed_packages-Needed g c.opts.exclude world.atoms in
      (
        find_orphans g t world,
        calculate_returns c db world t d w e,
        λ a. ground (arith, find_orphans-protected g t world a, needed a),
        λ a. ground (
          arith,
          find_orphans-orphans g t world a,
          needed a,
          is_orphan_iff g world a (built-HasMetadata (list_packages db)),
        ),
      )
