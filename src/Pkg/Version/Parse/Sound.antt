-- ===== src/Pkg/Version/Parse/Sound.antt =====
-- About the result of `parseVersion` of internal/pkg/version.go.
use grpm.Base.{
  ℕ, ◌^◌, ◌≤◌, ◌<◌, ◌≡◌, refl, ap, Bool, true, Option, none, some, List, [], ◌∷◌, arith, length,
  if◌then◌else◌, Text, All, all, split_on, drop, is_digit,
}
use grpm.Base.Decimal.{atoi, atoi-eq-decimal}
use grpm.Base.Result.{Result, ok, err, >>=-eq-ok, or_error, or_error-eq-ok, ok-injective}
use grpm.Pkg.Version.{Version, VersionComponent, VersionSuffix, is_empty}
use grpm.Pkg.Version.Component.{IsComponent}
use grpm.Pkg.Version.Sign.{IsParsed}
use grpm.Pkg.Version.Parse.{
  VersionRegexes, VersionError, parse_suffix, parse_suffixes, parse_component, parse_components,
  revision_of, suffixes_of, bad_revision, bad_main, no_components, empty_version,
  must_start_with_digit, parse_main, parse_version, bad_component, bad_suffix_number,
}

-- A value of a Go `int` that is not negative.
abbrev pub Fits : ℕ → Type 0
Fits n = n < 2 ^ 63

pub record IsBounded (v : Version) : Type 0 where
  pub values : All (λ (c : VersionComponent). Fits c.value) v.components
  pub numbers : All (λ (s : VersionSuffix). Fits s.number) v.suffixes
  pub revision_fits : Fits v.revision

digits_of_atoi : (c : ℕ) (s : Text) {n : ℕ} → atoi (c ∷ s) ≡ some n → is_digit c ≡ true
unfolding atoi
digits_of_atoi c s h = ground arith

-- The text of a component is digits only.
abbrev pub HasDigits : VersionComponent → Type 0
HasDigits c = all is_digit c.original ≡ true

atoi-digits : (s : Text) {n : ℕ} → atoi s ≡ some n → all is_digit s ≡ true
unfolding atoi
atoi-digits [] h = refl
atoi-digits (c ∷ s) h = ground arith

component_sound :
    (c : ℕ) (s : Text) (comp : VersionComponent)
    → parse_component (c ∷ s) ≡ ok comp
    → IsComponent comp × Fits comp.value × HasDigits comp
unfolding parse_component
component_sound c s comp h =
    let (num, e, f) = >>=-eq-ok (or_error (bad_component (c ∷ s)) (atoi (c ∷ s))) _ h in
    let a = or_error-eq-ok (bad_component (c ∷ s)) (atoi (c ∷ s)) e in
    let (v, small) = atoi-eq-decimal (c ∷ s) a in
    let d = digits_of_atoi c s a in
    (
      record {
        first = c;
        rest = s;
        written = ground arith;
        digit = d;
        flagged = ground arith;
        valued = ground arith;
      },
      ground arith,
      ground (arith, atoi-digits (c ∷ s) a),
    )

abbrev GoodComponents : List VersionComponent → Type 0
GoodComponents l =
    All IsComponent l × All (λ (c : VersionComponent). Fits c.value) l × All HasDigits l

components_sound :
    (parts : List Text) (l : List VersionComponent)
    → parse_components parts ≡ ok l
    → GoodComponents l
unfolding parse_components
components_sound [] l h = rw (← ok-injective h) (tt, tt, tt)
components_sound ([] ∷ parts) l h = components_sound parts l h
components_sound ((c ∷ s) ∷ parts) l h =
    let (comp, e, f) = >>=-eq-ok (parse_component (c ∷ s)) _ h in
    let (rest, e', f') = >>=-eq-ok (parse_components parts) _ f in
    let (one, small, digits) = component_sound c s comp e in
    let (all_one, all_small, all_digits) = components_sound parts rest e' in
    rw (← ok-injective f') ((one, all_one), (small, all_small), (digits, all_digits))

abbrev GoodSuffixes : List VersionSuffix → Type 0
GoodSuffixes l = All (λ (s : VersionSuffix). Fits s.number) l

suffix_sound :
    (m : Text × Text) (suffix : VersionSuffix) → parse_suffix m ≡ ok suffix → Fits suffix.number
unfolding parse_suffix
suffix_sound (kind, []) suffix h = ground arith
suffix_sound (kind, c ∷ digits) suffix h =
    let (num, e, f) =
      >>=-eq-ok (or_error (bad_suffix_number (c ∷ digits)) (atoi (c ∷ digits))) _ h in
    let a = or_error-eq-ok (bad_suffix_number (c ∷ digits)) (atoi (c ∷ digits)) e in
    let (v, small) = atoi-eq-decimal (c ∷ digits) a in ground arith

suffixes_sound :
    (ms : List (Text × Text)) (l : List VersionSuffix) → parse_suffixes ms ≡ ok l → GoodSuffixes l
unfolding parse_suffixes
suffixes_sound [] l h = rw (← ok-injective h) tt
suffixes_sound (m ∷ ms) l h =
    let (suffix, e, f) = >>=-eq-ok (parse_suffix m) _ h in
    let (rest, e', f') = >>=-eq-ok (parse_suffixes ms) _ f in
    rw (← ok-injective f') (suffix_sound m suffix e, suffixes_sound ms rest e')

revision_sound :
    (s : Text) (m : Option (Text × Text)) (revision : ℕ) (rest : Text)
    → revision_of s m ≡ ok (revision, rest)
    → Fits revision
unfolding revision_of
revision_sound s none revision rest h = ground arith
revision_sound s (some (whole, digits)) revision rest h =
    let (num, e, f) = >>=-eq-ok (or_error (bad_revision digits) (atoi digits)) _ h in
    let a = or_error-eq-ok (bad_revision digits) (atoi digits) e in
    let (v, small) = atoi-eq-decimal digits a in ground arith

suffixes_of_sound :
    (r : VersionRegexes) (s : Text) (starts : List ℕ) (suffixes : List VersionSuffix) (rest : Text)
    → suffixes_of r s starts ≡ ok (suffixes, rest)
    → GoodSuffixes suffixes
unfolding suffixes_of
suffixes_of_sound r s [] suffixes rest h = rw (← ap (λ p. p.0) (ok-injective h)) tt
suffixes_of_sound r s (start ∷ starts) suffixes rest h =
    let (l, e, f) = >>=-eq-ok (parse_suffixes (r.suffix_matches (drop start s))) _ h in
    rw (← ap (λ p. p.0) (ok-injective f)) (suffixes_sound (r.suffix_matches (drop start s)) l e)

not_empty :
    (l components : List VersionComponent) (letter letter' : Text)
    → (let r : Result VersionError (List VersionComponent × Text) =
          if is_empty l then err no_components else ok (l, letter') in
        r ≡ ok (components, letter))
    → (l ≡ components) × (1 ≤ length l)
not_empty [] components letter letter' h = cc
not_empty (c ∷ l) components letter letter' h = (ap (λ p. p.0) (ok-injective h), omega arith)

main_sound :
    (r : VersionRegexes) (s : Text) (components : List VersionComponent) (letter : Text)
    → parse_main r s ≡ ok (components, letter)
    → GoodComponents components × (1 ≤ length components)
unfolding parse_main
main_sound r s components letter h =
    let ((numeric, letter'), e, f) = >>=-eq-ok (or_error bad_main (r.main_match s)) _ h in
    let (l, e', f') = >>=-eq-ok (parse_components (split_on b'.' numeric)) _ f in
    let (same, many) = not_empty l components letter letter' f' in
    rw (← same) (components_sound (split_on b'.' numeric) l e', many)

-- A version that the parser accepts keeps its text. It has at least one numeric component, and each
-- component is a run of digits, with the number that they write and the flag for a leading zero.
-- Every number in it fits an `int` and is not negative.
pub parse_version_sound :
    (r : VersionRegexes) (s : Text) (v : Version)
    → parse_version r s ≡ ok v
    → (v.raw ≡ s)
      × IsParsed v
      × (1 ≤ length v.components)
      × IsBounded v
      × All HasDigits v.components
unfolding parse_version
parse_version_sound r s v h =
    let live = accepted (is_empty s) (r.digit_match s) _ h in
    let ((revision, left), e1, f1) = >>=-eq-ok (revision_of s (r.revision_match s)) _ live in
    let ((suffixes, main), e2, f2) = >>=-eq-ok (suffixes_of r left (r.suffix_starts left)) _ f1 in
    let ((components, letter), e3, f3) = >>=-eq-ok (parse_main r main) _ f2 in
    let (good, many) = main_sound r main components letter e3 in
    rw (← ok-injective f3) (
      refl,
      record { numeric = good.0 },
      many,
      record {
        values = good.1;
        numbers = suffixes_of_sound r left (r.suffix_starts left) suffixes main e2;
        revision_fits = revision_sound s (r.revision_match s) revision left e1;
      },
      good.2,
    )
  where
    accepted :
        (b c : Bool) (m : Result VersionError Version)
        → (if b then err empty_version else if c then m else err must_start_with_digit) ≡ ok v
        → m ≡ ok v
    accepted b c m e = ground arith
