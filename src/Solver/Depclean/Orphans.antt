-- ===== src/Solver/Depclean/Orphans.antt =====
-- `findOrphans` and `Calculate` of internal/solver/depclean.go. A nil pointer is `none`.
use grpm.Base.{
  ℕ, ◌+◌, ◌%◌, ◌^◌, Bool, true, Option, none, some, List, [], ◌∷◌, ◌++◌, if◌then◌else◌, Text, codes,
}
use grpm.Base.Assoc.{contains, keys}
use grpm.Base.Sort.{sort, sort_by}
use grpm.Base.Result.{Result, ok, err}
use grpm.State.Sets.{
  PackageSet, SetManager, SetError, set_contains, set_world, new_package_set, get_world,
  get_selected,
}
use grpm.State.Database.{PackageDatabase, list_packages}
use grpm.Solver.Depclean.{
  ReverseDependencyGraph, new_graph, build_graph, get_package, has_dependents,
}
use grpm.Solver.Depclean.Search.{
  DepcleanError, nil_database, load_world_failed, mark_needed_packages,
}

pub data OrphanReason : Type 0 where
  not_in_world not_required unused : OrphanReason

-- `String`.
unfoldable pub print_reason : OrphanReason → Text
print_reason not_in_world = codes "not in @world"
print_reason not_required = codes "not required by @world"
print_reason unused = codes "no longer needed"

pub record OrphanInfo : Type 0 where
  pub atom : Text
  pub version : Text
  pub slot : Text
  pub size : ℕ
  pub reason : OrphanReason

pub record DepcleanOptions : Type 0 where
  pub exclude : List Text
  pub include_system : Bool

abbrev pub default_depclean_options : DepcleanOptions
default_depclean_options = record { exclude = []; include_system = true }

pub record DepcleanResult (Atom : Type 0) : Type 0 where
  pub orphans : List OrphanInfo
  pub protected : List Text
  pub total_size : ℕ
  pub graph : ReverseDependencyGraph Atom

pub record DepcleanCalculator (Atom : Type 0) : Type 0 where
  pub db : Option (PackageDatabase Atom)
  pub set_manager : Option SetManager
  pub opts : DepcleanOptions

module _ {Atom : Type 0} where
  -- `SetOptions`.
  unfoldable pub set_options :
      DepcleanCalculator Atom → Option DepcleanOptions → DepcleanCalculator Atom
  set_options c none = c
  set_options c (some opts) = record c { opts = opts }

  unfoldable pub all_atoms : ReverseDependencyGraph Atom → List Text
  unfolding sort_by
  all_atoms g = sort (keys g.packages)

  unfoldable pub determine_orphan_reason :
      Text → PackageSet → ReverseDependencyGraph Atom → OrphanReason
  unfolding set_contains has_dependents
  determine_orphan_reason atom world g =
      if set_contains world atom
      then unused
      else if has_dependents g atom
      then unused
      else not_required

  -- What the loop of `findOrphans` appends for one atom that is not needed.
  unfoldable pub orphan_of : Text → PackageSet → ReverseDependencyGraph Atom → Option OrphanInfo
  unfolding get_package determine_orphan_reason
  orphan_of atom world g = elim (get_package g atom) [
    | none ↦ none
    | some installed ↦ elim installed.pkg [
      | none ↦ none
      | some p ↦ some (record {
        atom = atom;
        version = p.version;
        slot = p.slot.name;
        size = installed.size;
        reason = determine_orphan_reason atom world g;
      })
    ]
  ]

  abbrev pub with_orphan : Option OrphanInfo → DepcleanResult Atom → DepcleanResult Atom
  with_orphan none r = r
  with_orphan (some o) r = record r {
    orphans = r.orphans ++ o ∷ [];
    total_size = (r.total_size + o.size) % 2 ^ 64;
  }

  -- The body of the loop of `findOrphans`.
  unfoldable pub sort_out :
      Text
      → List Text
      → PackageSet
      → ReverseDependencyGraph Atom
      → DepcleanResult Atom
      → DepcleanResult Atom
  unfolding contains orphan_of
  sort_out atom needed world g r =
      if contains atom needed
      then record r { protected = r.protected ++ atom ∷ [] }
      else with_orphan (orphan_of atom world g) r

  unfoldable pub find_loop :
      List Text
      → List Text
      → PackageSet
      → ReverseDependencyGraph Atom
      → DepcleanResult Atom
      → DepcleanResult Atom
  unfolding sort_out
  find_loop [] needed world g r = r
  find_loop (atom ∷ atoms) needed world g r =
      find_loop atoms needed world g (sort_out atom needed world g r)

  unfoldable pub find_orphans :
      ReverseDependencyGraph Atom → List Text → PackageSet → DepcleanResult Atom
  unfolding find_loop all_atoms sort_by
  find_orphans g needed world =
      let r =
        find_loop (all_atoms g) needed world g
          (record { orphans = []; protected = []; total_size = 0; graph = g }) in
      record r { orphans = sort_by (λ o. o.atom) r.orphans }

  unfoldable pub load_world_set : DepcleanCalculator Atom → Result SetError PackageSet
  unfolding new_package_set get_world get_selected
  load_world_set c = elim c.set_manager [
    | none ↦ ok (new_package_set set_world [])
    | some m ↦ if c.opts.include_system then get_world m else get_selected m
  ]

  unfoldable pub calculate : DepcleanCalculator Atom → Result DepcleanError (DepcleanResult Atom)
  unfolding load_world_set list_packages build_graph mark_needed_packages find_orphans
  calculate c = elim c.db [
    | none ↦ err nil_database
    | some db ↦ elim (load_world_set c) [
      | err e ↦ err (load_world_failed e)
      | ok world ↦
          let g = build_graph (list_packages db) new_graph in
          elim (mark_needed_packages g c.opts.exclude world.atoms) [
            | err e ↦ err e
            | ok needed ↦ ok (find_orphans g needed world)
          ]
    ]
  ]
