-- ===== src/Install/Collision/Safe.antt =====
-- What follows where internal/install/collision.go finds no file in the way.
use mathlib.Core.Path.{subst}
use grpm.Base.{
  ◌≡◌, refl, arith, sym, ◌∙◌, ap, true, false, none, some, List, [], ◌∷◌, Text, text_eq,
  text_eq_iff, Option-cases, Bool-cases, ◌⊎◌, inl, inr,
}
use grpm.Base.Assoc.{contains}
use grpm.Base.Result.{Result, ok, err}
use grpm.State.Installed.{InstalledPackage}
use grpm.State.Database.{DatabaseError, get, who_owns}
use grpm.State.Database.Index.{lists, Reached, who_owns-Reached}
use grpm.Install.Collision.Names.{NameOf, package_of_atom-NameOf}
use grpm.Install.Collision.{
  Collision, CollisionDetector, package_of_atom, same_package, owner_collision, collision_at,
  detect,
}

owner_collision-none :
    (path package_name : Text) (r : Result DatabaseError Text)
    → owner_collision path package_name r ≡ none
    → (owner : Text) × (r ≡ ok owner) × (same_package owner package_name ≡ true)
unfolding owner_collision
owner_collision-none path package_name (err e) h = absurd (ground (arith, h))
owner_collision-none path package_name (ok owner) h = (owner, refl, ground (arith, h))

-- The two atoms have the same category and name.
same_package-NameOf :
    (atom1 atom2 : Text)
    → same_package atom1 atom2 ≡ true
    → (name : Text) × NameOf atom1 name × NameOf atom2 name
unfolding same_package
same_package-NameOf atom1 atom2 h =
    let e : package_of_atom atom2 ≡ package_of_atom atom1 =
      ground (arith, h, text_eq_iff (package_of_atom atom1) (package_of_atom atom2)) in
    (
      package_of_atom atom1,
      package_of_atom-NameOf atom1,
      subst (NameOf atom2) e (package_of_atom-NameOf atom2),
    )

contains-cons :
    (path file : Text) (files : List Text)
    → contains path (file ∷ files) ≡ true
    → (path ≡ file) ⊎ (contains path files ≡ true)
unfolding contains
contains-cons path file files m = elim (Bool-cases (text_eq file path)) [
  | inl same ↦ inl (ground (arith, same, text_eq_iff file path))
  | inr other ↦ inr (ground (arith, m, other))
]

module _ {Atom : Type 0} (cd : CollisionDetector Atom) (existing : List Text)
    (package_name : Text) where
  detect-hit :
      (files : List Text) (file : Text) (c : Collision)
      → collision_at cd existing package_name file ≡ some c
      → detect cd existing (file ∷ files) package_name ≡ c ∷ detect cd existing files package_name
  unfolding detect
  detect-hit files file c h = rw (detect, h) refl

  detect-miss :
      (files : List Text) (file : Text)
      → collision_at cd existing package_name file ≡ none
      → detect cd existing (file ∷ files) package_name ≡ detect cd existing files package_name
  unfolding detect
  detect-miss files file h = rw (detect, h) refl

  detect-nil :
      (path : Text) → contains path [] ≡ true → collision_at cd existing package_name path ≡ none
  unfolding contains
  detect-nil path m = absurd (ground (arith, m))

  detect-none :
      (files : List Text) (path : Text)
      → detect cd existing files package_name ≡ []
      → contains path files ≡ true
      → collision_at cd existing package_name path ≡ none
  detect-none [] path h m = detect-nil path m
  detect-none (file ∷ files) path h m =
      elim (Option-cases (collision_at cd existing package_name file)) [
        | inr (c, hit) ↦ absurd (ground (arith, sym (detect-hit files file c hit) ∙ h))
        | inl miss ↦ elim (contains-cons path file files m) [
          | inl same ↦ ap (λ p. collision_at cd existing package_name p) same ∙ miss
          | inr later ↦ detect-none files path (sym (detect-miss files file miss) ∙ h) later
        ]
      ]

  collision_at-none :
      (path : Text)
      → collision_at cd existing package_name path ≡ none
      → contains path existing ≡ true
      → contains path cd.shared_paths ≡ false
      → (contains path cd.protected_paths ≡ false)
        × (owner_collision path package_name (who_owns cd.db path) ≡ none)
  unfolding collision_at
  collision_at-none path h e s = ground (arith, h, e, s)

  -- Where the database is reached by additions and removals and Detect finds no collision, every file
  -- to be installed that exists and is not shared is not protected either, and an installed package
  -- lists it whose atom agrees with that of the new package up to the first hyphen behind the
  -- category that a digit follows, or as a whole where there is none.
  pub detect-Owned :
      (files : List Text) (path : Text)
      → Reached cd.db
      → detect cd existing files package_name ≡ []
      → contains path files ≡ true
      → contains path existing ≡ true
      → contains path cd.shared_paths ≡ false
      → (contains path cd.protected_paths ≡ false)
        × ((owner : Text) × (i : InstalledPackage Atom) × (get cd.db owner ≡ ok i)
            × (lists path i.files ≡ true)
            × ((name : Text) × NameOf owner name × NameOf package_name name))
  detect-Owned files path r h m e s =
      let (unprotected, no_collision) = collision_at-none path (detect-none files path h m) e s in
      let (owner, owned, same) =
        owner_collision-none path package_name (who_owns cd.db path) no_collision in
      let (i, found, listed, only) = who_owns-Reached cd.db path owner r owned in
      (unprotected, (owner, i, found, listed, same_package-NameOf owner package_name same))
