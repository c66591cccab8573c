-- ===== src/Install/Collision/Names.antt =====
-- What `extractPackageName` of internal/install/collision.go keeps of an atom.
use mathlib.Core.Path.{subst}
use grpm.Base.{
  ℕ, ◌≡◌, refl, ap, ◌∙◌, arith, Bool, true, false, not, ◌&&◌, ◌||◌, Option, none, some, [], ◌∷◌,
  ◌++◌, ◌==◌, all, Text, codes, is_digit, has_prefix, Bool-cases, Option-cases, inl, inr,
}
use grpm.Config.Atom.{cut}
use grpm.Solver.BaseAtom.{starts_with_digit}
use grpm.Install.Collision.{up_to_version, package_of_atom}

-- Somewhere a hyphen stands with a digit behind it.
unfoldable pub has_version : Text → Bool
has_version [] = false
has_version (c ∷ []) = false
has_version (c ∷ d ∷ s) = (c == b'-' && is_digit d) || has_version (d ∷ s)

abbrev pub has_slash : Text → Bool
has_slash s = not (all (λ c. not (c == b'/')) s)

-- An atom and its category and name: all of the atom before the first hyphen behind its first slash
-- that a digit follows. An atom without a slash, or without such a hyphen, is its own.
pub data NameOf (atom name : Text) : Type 0 where
  without_category : has_slash atom ≡ false → name ≡ atom → NameOf atom name
  without_version :
      (category rest : Text)
      → has_slash category ≡ false
      → atom ≡ category ++ b'/' ∷ rest
      → has_version rest ≡ false
      → name ≡ atom
      → NameOf atom name
  with_version :
      (category before after : Text) (digit : ℕ)
      → has_slash category ≡ false
      → atom ≡ category ++ b'/' ∷ (before ++ b'-' ∷ digit ∷ after)
      → is_digit digit ≡ true
      → has_version (before ++ b'-' ∷ []) ≡ false
      → name ≡ category ++ b'/' ∷ before
      → NameOf atom name

-- The test of `up_to_version`.
abbrev ends : ℕ → Text → Bool
ends c s = c == b'-' && starts_with_digit s

module _ (c : ℕ) (s : Text) where
  version_here : ends c s ≡ true → up_to_version (c ∷ s) ≡ some []
  unfolding up_to_version
  version_here e = rw (up_to_version, e) refl

  version_later :
      (name : Text)
      → ends c s ≡ false
      → up_to_version s ≡ some name
      → up_to_version (c ∷ s) ≡ some (c ∷ name)
  unfolding up_to_version
  version_later name e h = rw (up_to_version, e, h) refl

  version_never : ends c s ≡ false → up_to_version s ≡ none → up_to_version (c ∷ s) ≡ none
  unfolding up_to_version
  version_never e h = rw (up_to_version, e, h) refl

  slash_here : (c == b'/') ≡ true → cut (codes "/") (c ∷ s) ≡ some ([], s)
  unfolding cut has_prefix
  slash_here e = rw (cut, e) refl

  slash_later :
      (before after : Text)
      → (c == b'/') ≡ false
      → cut (codes "/") s ≡ some (before, after)
      → cut (codes "/") (c ∷ s) ≡ some (c ∷ before, after)
  unfolding cut has_prefix
  slash_later before after e h = rw (cut, e, h) refl

  slash_never : (c == b'/') ≡ false → cut (codes "/") s ≡ none → cut (codes "/") (c ∷ s) ≡ none
  unfolding cut has_prefix
  slash_never e h = rw (cut, e, h) refl

no_version_in_nothing : up_to_version [] ≡ none
unfolding up_to_version
no_version_in_nothing = refl

no_slash_in_nothing : cut (codes "/") [] ≡ none
unfolding cut
no_slash_in_nothing = refl

apart {ℓ} : {A : Type ℓ} {a : A} {o : Option A} → o ≡ some a → o ≡ none → ⊥
apart e h = cc

up_to_version-none : (s : Text) → up_to_version s ≡ none → has_version s ≡ false
unfolding has_version
up_to_version-none [] h = refl
up_to_version-none (c ∷ []) h = refl
up_to_version-none (c ∷ d ∷ s) h = elim (Bool-cases (ends c (d ∷ s))) [
  | inl here ↦ absurd (apart (version_here c (d ∷ s) here) h)
  | inr later ↦ elim (Option-cases (up_to_version (d ∷ s))) [
    | inl e ↦ ground (arith, later, up_to_version-none (d ∷ s) e)
    | inr (name, e) ↦ absurd (apart (version_later c (d ∷ s) name later e) h)
  ]
]

abbrev Before : Text → Text → Type 0
Before s before =
    (digit : ℕ) × (after : Text) × (s ≡ before ++ b'-' ∷ digit ∷ after)
    × (is_digit digit ≡ true)
    × (has_version (before ++ b'-' ∷ []) ≡ false)

has_version-cons :
    (c d : ℕ) (s before after : Text)
    → d ∷ s ≡ before ++ b'-' ∷ after
    → ends c (d ∷ s) ≡ false
    → has_version (before ++ b'-' ∷ []) ≡ false
    → has_version (c ∷ (before ++ b'-' ∷ [])) ≡ false
unfolding has_version
has_version-cons c d s [] after e t h = ground (arith, h)
has_version-cons c d s (b ∷ before) after e t h = ground (arith, e, t, h)

hyphen : (c d : ℕ) (s : Text) → ends c (d ∷ s) ≡ true → Before (c ∷ d ∷ s) []
unfolding has_version
hyphen c d s h = (d, s, ground (arith, h), ground (arith, h), refl)

some_inj {ℓ} : {A : Type ℓ} {a b : A} {o : Option A} → o ≡ some a → o ≡ some b → a ≡ b
some_inj e h = cc

up_to_version-some : (s before : Text) → up_to_version s ≡ some before → Before s before
up_to_version-some [] before h = absurd (apart h no_version_in_nothing)
up_to_version-some (c ∷ []) before h =
    absurd (apart h (version_never c [] (ground arith) no_version_in_nothing))
up_to_version-some (c ∷ d ∷ s) before h = elim (Bool-cases (ends c (d ∷ s))) [
  | inl here ↦
      subst (Before (c ∷ d ∷ s)) (some_inj (version_here c (d ∷ s) here) h) (hyphen c d s here)
  | inr later ↦ elim (Option-cases (up_to_version (d ∷ s))) [
    | inl e ↦ absurd (apart h (version_never c (d ∷ s) later e))
    | inr (name, e) ↦
        let (digit, after, whole, is_one, first) = up_to_version-some (d ∷ s) name e in
        subst (Before (c ∷ d ∷ s)) (some_inj (version_later c (d ∷ s) name later e) h) (
          digit,
          after,
          ap (λ t. c ∷ t) whole,
          is_one,
          has_version-cons c d s name (digit ∷ after) whole later first,
        )
  ]
]

cut-none : (s : Text) → cut (codes "/") s ≡ none → has_slash s ≡ false
cut-none [] h = refl
cut-none (c ∷ s) h = elim (Bool-cases (c == b'/')) [
  | inl here ↦ absurd (apart (slash_here c s here) h)
  | inr later ↦ elim (Option-cases (cut (codes "/") s)) [
    | inl e ↦ ground (arith, later, cut-none s e)
    | inr ((before, after), e) ↦ absurd (apart (slash_later c s before after later e) h)
  ]
]

abbrev Parts : Text → Text × Text → Type 0
Parts s p = (has_slash p.0 ≡ false) × (s ≡ p.0 ++ b'/' ∷ p.1)

cut-some : (s : Text) (p : Text × Text) → cut (codes "/") s ≡ some p → Parts s p
cut-some [] p h = absurd (apart h no_slash_in_nothing)
cut-some (c ∷ s) p h = elim (Bool-cases (c == b'/')) [
  | inl here ↦ subst (Parts (c ∷ s)) (some_inj (slash_here c s here) h) (refl, ground (arith, here))
  | inr later ↦ elim (Option-cases (cut (codes "/") s)) [
    | inl e ↦ absurd (apart h (slash_never c s later e))
    | inr ((before, after), e) ↦
        let (free, whole) = cut-some s (before, after) e in
        subst (Parts (c ∷ s)) (some_inj (slash_later c s before after later e) h)
          (ground (arith, later, free), ap (λ t. c ∷ t) whole)
  ]
]

pub package_of_atom-NameOf : (atom : Text) → NameOf atom (package_of_atom atom)
unfolding package_of_atom
package_of_atom-NameOf atom = elim (Option-cases (cut (codes "/") atom)) [
  | inl e ↦ without_category (cut-none atom e) (rw (package_of_atom, e) refl)
  | inr ((category, rest), e) ↦
      let (free, whole) = cut-some atom (category, rest) e in
      elim (Option-cases (up_to_version rest)) [
        | inl f ↦
            without_version category rest free whole (up_to_version-none rest f)
              (rw (package_of_atom, e, f) refl)
        | inr (before, f) ↦
            let (digit, after, there, is_one, first) = up_to_version-some rest before f in
            with_version category before after digit free
              (whole ∙ ap (λ t. category ++ b'/' ∷ t) there) is_one first
              (rw (package_of_atom, e, f) refl)
      ]
]
