-- ===== src/Base/Padded.antt =====
-- The comparison of two lists, position by position, of which the shorter is filled up with a value.
use grpm.Base.{◌≡◌, refl, List, [], ◌∷◌, arith, All}
use grpm.Base.Order.{
  Ordering, IsComparison, then_by, flip, Composes, then_by-flip, then_by-Composes,
}

-- The two results of a list against the empty one and back.
equal_to_nothing : (x y : Ordering) → y ≡ flip x → Composes x y Ordering.eq
equal_to_nothing x y e p q = ground arith

then_by_eq : (x : Ordering) → x ≡ then_by x Ordering.eq
then_by_eq x = ground arith

-- The loop over two lists of which the shorter is filled up with `d`.
module _ {A : Type 0} (P : A → Type 0) (f : A → A → Ordering) (d : A) where
  abbrev pub padded : List A → List A → Ordering
  padded [] [] = Ordering.eq
  padded (x ∷ xs) [] = then_by (f x d) (padded xs [])
  padded [] (y ∷ ys) = then_by (f d y) (padded [] ys)
  padded (x ∷ xs) (y ∷ ys) = then_by (f x y) (padded xs ys)

  module _ (h : IsComparison P f) (pd : P d) where
    padded_flips : (xs ys : List A) → All P xs → All P ys → padded ys xs ≡ flip (padded xs ys)
    padded_flips [] [] p q = refl
    padded_flips (x ∷ xs) [] p q =
        then_by-flip _ _ _ _ (h.flips x d p.0 pd) (padded_flips xs [] p.1 q)
    padded_flips [] (y ∷ ys) p q =
        then_by-flip _ _ _ _ (h.flips d y pd q.0) (padded_flips [] ys p q.1)
    padded_flips (x ∷ xs) (y ∷ ys) p q =
        then_by-flip _ _ _ _ (h.flips x y p.0 q.0) (padded_flips xs ys p.1 q.1)

    padded-Composes :
        (xs ys zs : List A)
        → All P xs
        → All P ys
        → All P zs
        → Composes (padded xs ys) (padded ys zs) (padded xs zs)
    padded-Composes [] [] [] p q r = λ _ _. refl
    padded-Composes [] [] (z ∷ zs) p q r = λ _ _. refl
    padded-Composes [] (y ∷ ys) [] p q r = equal_to_nothing _ _ (padded_flips [] (y ∷ ys) p q)
    padded-Composes [] (y ∷ ys) (z ∷ zs) p q r =
        then_by-Composes _ _ _ _ _ _ (h.composes d y z pd q.0 r.0)
          (padded-Composes [] ys zs p q.1 r.1)
    padded-Composes (x ∷ xs) [] [] p q r = λ _ _. then_by_eq _
    padded-Composes (x ∷ xs) [] (z ∷ zs) p q r =
        then_by-Composes _ _ _ _ _ _ (h.composes x d z p.0 pd r.0)
          (padded-Composes xs [] zs p.1 q r.1)
    padded-Composes (x ∷ xs) (y ∷ ys) [] p q r =
        then_by-Composes _ _ _ _ _ _ (h.composes x y d p.0 q.0 pd)
          (padded-Composes xs ys [] p.1 q.1 r)
    padded-Composes (x ∷ xs) (y ∷ ys) (z ∷ zs) p q r =
        then_by-Composes _ _ _ _ _ _ (h.composes x y z p.0 q.0 r.0)
          (padded-Composes xs ys zs p.1 q.1 r.1)

    pub padded-IsComparison : IsComparison (All P) padded
    padded-IsComparison = record { flips = padded_flips; composes = padded-Composes }
