-- ===== src/Pkg/Version/Component.antt =====
-- About `compareComponents` of internal/pkg/version.go as an order: by class, text and number.
use Prim.Native.Nat.{compare}
use grpm.Base.{
  ℕ, ◌≤◌, ◌<◌, ◌≡◌, refl, inl, inr, Bool, true, false, ◌&&◌, ◌||◌, [], ◌∷◌, arith, length, ltb,
  ◌==◌, if◌then◌else◌, Text, text_compare, is_digit, Bool-cases, ==_iff, suc,
}
use grpm.Base.Int.{ℤ, sub_ℕ}
use grpm.Base.Order.{
  Ordering, IsComparison, IsComparison-then, IsComparison-on, nat_compare, text-IsComparison, sign,
  then_by,
}
use grpm.Base.Decimal.{decimal, decimal_from_pos}
use grpm.Pkg.Version.{
  VersionComponent, int_of_ordering, trim_zeros, or_zero, compare_components, no_component,
}

-- What the comparison relies on in a component.
pub record IsComponent (c : VersionComponent) : Type 0 where
  pub first : ℕ
  pub rest : Text
  pub written : c.original ≡ first ∷ rest
  pub digit : is_digit first ≡ true
  pub flagged : c.has_leading_zero ≡ (ltb 1 (length c.original) && first == b'0')
  pub valued : c.value ≡ decimal c.original

abbrev starts_with_zero : Text → Bool
starts_with_zero [] = false
starts_with_zero (c ∷ s) = c == b'0'

record Key : Type 0 where
  class : ℕ
  text : Text
  number : ℕ

abbrev key_of : Bool → Text → ℕ → Key
key_of zero_first t v =
    if zero_first
    then record { class = 0; text = t; number = 0 }
    else record { class = 1; text = []; number = v }

abbrev trimmed : VersionComponent → Text
trimmed c = or_zero (trim_zeros c.original)

abbrev key : VersionComponent → Key
key c = key_of (starts_with_zero c.original) (trimmed c) c.value

abbrev compare_keys : Key → Key → Ordering
compare_keys a b =
    then_by (compare a.class b.class)
      (then_by (text_compare a.text b.text) (compare a.number b.number))

keys-IsComparison : IsComparison (λ _. Unit {0}) compare_keys
keys-IsComparison =
    IsComparison-then (λ _. Unit {0}) (λ a b. compare a.class b.class)
      (λ a b. then_by (text_compare a.text b.text) (compare a.number b.number))
      (IsComparison-on (λ _. Unit {0}) (λ (a : Key). a.class) compare nat_compare)
      (IsComparison-then (λ _. Unit {0}) (λ a b. text_compare a.text b.text)
        (λ a b. compare a.number b.number)
        (IsComparison-on (λ _. Unit {0}) (λ (a : Key). a.text) text_compare text-IsComparison)
        (IsComparison-on (λ _. Unit {0}) (λ (a : Key). a.number) compare nat_compare))

-- A number without a leading zero is positive.
decimal_pos : (c : ℕ) (s : Text) → is_digit c ≡ true → (c == b'0') ≡ false → 1 ≤ decimal (c ∷ s)
unfolding decimal
decimal_pos c s d h = decimal_from_pos _ s (ground arith)

-- The three kinds of component, by first digit, flag, trimmed text and value.
data Shape : Bool → Bool → Text → ℕ → Type 0 where
  plain : {f v : ℕ} {t : Text} → b'0' < f → 1 ≤ v → Shape false false (f ∷ t) v
  zero_alone : {v : ℕ} {t : Text} → v ≡ 0 → t ≡ b'0' ∷ [] → Shape true false t v
  padded : {v : ℕ} {t : Text} (r : Text) → t ≡ b'0' ∷ r → Shape true true t v

abbrev raw_compare : Bool → Bool → Text → Text → ℕ → ℕ → ℤ
raw_compare l l' t t' v v' = if l || l' then int_of_ordering (text_compare t t') else sub_ℕ v v'

sign-raw_compare :
    {s s' l l' : Bool} {t t' : Text} {v v' : ℕ}
    → Shape s l t v
    → Shape s' l' t' v'
    → sign (raw_compare l l' t t' v v') ≡ compare_keys (key_of s t v) (key_of s' t' v')
unfolding text_compare
sign-raw_compare (plain h p) (plain h' p') = ground arith
sign-raw_compare (plain h p) (zero_alone v e) = ground arith
sign-raw_compare (plain h p) (padded r e) = ground arith
sign-raw_compare (zero_alone v e) (plain h p) = ground arith
sign-raw_compare (zero_alone v e) (zero_alone v' e') = ground arith
sign-raw_compare (zero_alone v e) (padded r e') = ground arith
sign-raw_compare (padded r e) (plain h p) = ground arith
sign-raw_compare (padded r e) (zero_alone v' e') = ground arith
sign-raw_compare (padded r e) (padded r' e') = ground arith

trim_first :
    (c : ℕ) (s : Text) → (c == b'0') ≡ false → or_zero (trim_zeros (c ∷ s)) ≡ c ∷ trim_zeros s
unfolding trim_zeros
trim_first c s h = ground arith

trim_zero : (s : Text) → (t : Text) × (or_zero (trim_zeros (b'0' ∷ s)) ≡ b'0' ∷ t)
unfolding trim_zeros
trim_zero s = (trim_zeros s, ground arith)

flag_of_two : (n : ℕ) → (ltb 1 (suc (suc n)) && true) ≡ true
flag_of_two n = ground arith

shape_zero :
    (s : Text)
    → Shape true
        (ltb 1 (length (b'0' ∷ s)) && true)
        (or_zero (trim_zeros (b'0' ∷ s)))
        (decimal (b'0' ∷ s))
unfolding trim_zeros decimal
shape_zero [] = zero_alone refl refl
shape_zero (c ∷ s) = let (r, e) = trim_zero (c ∷ s) in rw (flag_of_two (length s)) (padded r e)

and_false : (b : Bool) → (b && false) ≡ false
and_false b = ground arith

-- The shape of the component that the parser makes of a run of digits.
shape_of_text :
    (c : ℕ) (s : Text)
    → is_digit c ≡ true
    → Shape
        (c == b'0')
        (ltb 1 (length (c ∷ s)) && c == b'0')
        (or_zero (trim_zeros (c ∷ s)))
        (decimal (c ∷ s))
shape_of_text c s d = elim (Bool-cases (c == b'0')) [
  | inl z ↦ rw ((==_iff c b'0').0 z) (shape_zero s)
  | inr nz ↦
      rw (nz, trim_first c s nz, and_false (ltb 1 (length (c ∷ s))))
        (plain (ground arith) (decimal_pos c s d nz))
]

shape_of :
    (c : VersionComponent)
    → IsComponent c
    → Shape (starts_with_zero c.original) c.has_leading_zero (trimmed c) c.value
shape_of c p = rw (p.flagged, p.valued) (rw p.written (shape_of_text p.first p.rest p.digit))

sign-compare_components :
    (a b : VersionComponent)
    → IsComponent a
    → IsComponent b
    → sign (compare_components a b) ≡ compare_keys (key a) (key b)
unfolding compare_components
sign-compare_components a b p q = sign-raw_compare (shape_of a p) (shape_of b q)

-- The sign of `compareComponents` is a total preorder on the components of parsed versions: its
-- result on swapped arguments has the opposite sign, and it is transitive.
pub components-IsComparison : IsComparison IsComponent (λ a b. sign (compare_components a b))
components-IsComparison = record {
  flips = λ a b p q.
      rw (sign-compare_components a b p q, sign-compare_components b a q p)
        (keys-IsComparison.flips (key a) (key b) tt tt);
  composes = λ a b c p q r.
      rw
        (
          sign-compare_components a b p q,
          sign-compare_components b c q r,
          sign-compare_components a c p r,
        )
        (keys-IsComparison.composes (key a) (key b) (key c) tt tt tt);
}

pub no_component-IsComponent : IsComponent no_component
unfolding decimal
no_component-IsComponent = record {
  first = b'0';
  rest = [];
  written = refl;
  digit = refl;
  flagged = refl;
  valued = refl;
}
