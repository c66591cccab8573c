-- ===== src/Base/Order.antt =====
-- Three-way comparisons: their laws, and the laws of lexicographic combinations.
use Prim.Native.Nat.{compare}
use grpm.Base.{ℕ, ◌≡◌, ◌≢◌, refl, arith, [], ◌∷◌, Text, text_compare, leb, if◌then◌else◌}
use grpm.Base.Int.{ℤ, pos, negsuc, sub_ℕ, ◌-ℤ◌}
pub use Prim.Native.Nat.{Ordering}

abbrev pub flip : Ordering → Ordering
flip Ordering.lt = Ordering.gt
flip Ordering.eq = Ordering.eq
flip Ordering.gt = Ordering.lt

-- The first result that is not `eq`.
abbrev pub then_by : Ordering → Ordering → Ordering
then_by Ordering.lt o = Ordering.lt
then_by Ordering.eq o = o
then_by Ordering.gt o = Ordering.gt

-- The sign of an `int` that a comparison returns.
abbrev pub sign : ℤ → Ordering
sign (pos n) = if leb n 0 then Ordering.eq else Ordering.gt
sign (negsuc n) = Ordering.lt

-- Of three elements: `x` compares the first two, `y` the last two, and `z` the outer two.
abbrev pub Composes : Ordering → Ordering → Ordering → Type 0
Composes x y z = x ≢ Ordering.gt → y ≢ Ordering.gt → z ≡ then_by x y

-- A comparison that is a total preorder on the elements that satisfy `P`.
pub record IsComparison {ℓ κ} {A : Type ℓ} (P : A → Type κ) (f : A → A → Ordering)
    : Type (ℓ ⊔ κ) where
  pub flips : (a b : A) → P a → P b → f b a ≡ flip (f a b)
  pub composes : (a b c : A) → P a → P b → P c → Composes (f a b) (f b c) (f a c)

-- A comparison is read off another one through a function.
pub IsComparison-on {ℓ κ ν} :
    {A : Type ℓ} {B : Type κ} (P : A → Type ν) (key : A → B) (g : B → B → Ordering)
    → IsComparison (λ _. Unit {0}) g
    → IsComparison P (λ a b. g (key a) (key b))
IsComparison-on P key g h = record {
  flips = λ a b _ _. h.flips (key a) (key b) tt tt;
  composes = λ a b c _ _ _. h.composes (key a) (key b) (key c) tt tt tt;
}

pub then_by-flip :
    (x x' y y' : Ordering) → x' ≡ flip x → y' ≡ flip y → then_by x' y' ≡ flip (then_by x y)
then_by-flip x x' y y' p q = ground arith

-- The lexicographic step.
pub then_by-Composes :
    (x y z x' y' z' : Ordering)
    → Composes x y z
    → Composes x' y' z'
    → Composes (then_by x x') (then_by y y') (then_by z z')
then_by-Composes x y z x' y' z' h h' p q = ground (arith, h, h')

pub IsComparison-then {ℓ κ} :
    {A : Type ℓ} (P : A → Type κ) (f g : A → A → Ordering)
    → IsComparison P f
    → IsComparison P g
    → IsComparison P (λ a b. then_by (f a b) (g a b))
IsComparison-then P f g hf hg = record {
  flips = λ a b p q. then_by-flip _ _ _ _ (hf.flips a b p q) (hg.flips a b p q);
  composes = λ a b c p q r.
      then_by-Composes _ _ _ _ _ _ (hf.composes a b c p q r) (hg.composes a b c p q r);
}

pub nat_compare : IsComparison (λ _. Unit {0}) compare
nat_compare = record { flips = λ a b _ _. ground arith; composes = λ a b c _ _ _ h k. ground arith }

text_flips : (s t : Text) → text_compare t s ≡ flip (text_compare s t)
unfolding text_compare
text_flips [] [] = refl
text_flips [] (y ∷ t) = refl
text_flips (x ∷ s) [] = refl
text_flips (x ∷ s) (y ∷ t) = ground (arith, text_flips s t)

text-Composes : (s t u : Text) → Composes (text_compare s t) (text_compare t u) (text_compare s u)
unfolding text_compare
text-Composes [] [] [] h k = refl
text-Composes [] [] (z ∷ u) h k = refl
text-Composes [] (y ∷ t) [] h k = absurd (k refl)
text-Composes [] (y ∷ t) (z ∷ u) h k = refl
text-Composes (x ∷ s) [] u h k = absurd (h refl)
text-Composes (x ∷ s) (y ∷ t) [] h k = absurd (k refl)
text-Composes (x ∷ s) (y ∷ t) (z ∷ u) h k = ground (arith, text-Composes s t u)

pub text-IsComparison : IsComparison (λ _. Unit {0}) text_compare
text-IsComparison = record {
  flips = λ a b _ _. text_flips a b;
  composes = λ a b c _ _ _. text-Composes a b c;
}

-- Go's `a - b` compares.
pub sign-sub_ℕ : (a b : ℕ) → sign (sub_ℕ a b) ≡ compare a b
sign-sub_ℕ a b = ground arith

pub sign-IsComparison : IsComparison (λ _. Unit {0}) (λ a b. sign (a -ℤ b))
sign-IsComparison = record {
  flips = λ a b _ _. ground arith;
  composes = λ a b c _ _ _ h k. ground arith;
}

-- The same, where the elements that are compared satisfy what the elements they are read from do.
pub IsComparison-pull {ℓ κ ν μ} :
    {A : Type ℓ} {B : Type κ} (P : A → Type ν) (Q : B → Type μ) (key : A → B) (g : B → B → Ordering)
    → ((a : A) → P a → Q (key a))
    → IsComparison Q g
    → IsComparison P (λ a b. g (key a) (key b))
IsComparison-pull P Q key g q h = record {
  flips = λ a b p p'. h.flips (key a) (key b) (q a p) (q b p');
  composes = λ a b c p p' p''. h.composes (key a) (key b) (key c) (q a p) (q b p') (q c p'');
}
