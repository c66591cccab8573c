-- ===== src/Solver/Graph/Cycles/Walks.antt =====
-- Walks, closed paths and orders of a relation, for the cycle search of
-- internal/solver/cycle_detector.go.
use mathlib.Core.Path.{subst}
use grpm.Base.{
  ◌≡◌, inl, inr, refl, sym, arith, Bool, true, false, List, [], ◌∷◌, ◌++◌, Bool-cases, Text,
  text_eq, text_eq_iff,
}
use grpm.Base.Assoc.{contains}
use grpm.Solver.Graph.Cycles.{suffix_from, extract_cycle}

abbrev pub first_or : List Text → Text → Text
first_or [] t = t
first_or (x ∷ l) t = x

extract_here :
    (p : Text) (path : List Text) (start : Text)
    → text_eq p start ≡ true
    → extract_cycle (p ∷ path) start ≡ p ∷ path
unfolding extract_cycle
extract_here p path start q = rw (extract_cycle, suffix_from, q) refl

extract_later :
    (p : Text) (path : List Text) (start : Text)
    → text_eq p start ≡ false
    → extract_cycle (p ∷ path) start ≡ extract_cycle path start
unfolding extract_cycle
extract_later p path start q = rw (extract_cycle, suffix_from, q) refl

module _ (edge : Text → Text → Bool) where
  pub data Walk : Text → Text → Type 0 where
    one : (u v : Text) → edge u v ≡ true → Walk u v
    more : (u w v : Text) → edge u w ≡ true → Walk w v → Walk u v

  -- Each element has an edge to the next one, and the last one to `t`.
  abbrev pub Chain : List Text → Text → Type 0
  Chain [] t = Unit
  Chain (x ∷ l) t = (edge x (first_or l t) ≡ true) × Chain l t

  -- A path that is not empty, and whose last element has an edge to the first.
  abbrev pub IsCycle : List Text → Type 0
  IsCycle [] = ⊥
  IsCycle (x ∷ l) = Chain (x ∷ l) x

  pub Chain-append :
      (l : List Text) (x t : Text) → Chain l x → edge x t ≡ true → Chain (l ++ x ∷ []) t
  Chain-append [] x t c e = (e, tt)
  Chain-append (y ∷ []) x t (d, c) e = (d, (e, tt))
  Chain-append (y ∷ z ∷ l) x t (d, c) e = (d, Chain-append (z ∷ l) x t c e)

  pub extract_cycle-IsCycle :
      (path : List Text) (start : Text)
      → contains start path ≡ true
      → Chain path start
      → IsCycle (extract_cycle path start)
  unfolding contains
  extract_cycle-IsCycle [] start m c = cc
  extract_cycle-IsCycle (p ∷ path) start m c = elim (Bool-cases (text_eq p start)) [
    | inl q ↦
        subst IsCycle (sym (extract_here p path start q))
          (subst (λ t. Chain (p ∷ path) t) (sym ((text_eq_iff p start).0 q)) c)
    | inr q ↦
        subst IsCycle (sym (extract_later p path start q))
          (extract_cycle-IsCycle path start (ground (arith, m, q)) c.1)
  ]

  -- Every edge leads further down the list.
  abbrev pub IsOrder : List Text → Type 0
  IsOrder [] = Unit
  IsOrder (x ∷ l) = ((v : Text) → edge x v ≡ true → contains v l ≡ true) × IsOrder l

  IsOrder-closed :
      (l : List Text) (u v : Text)
      → IsOrder l
      → contains u l ≡ true
      → edge u v ≡ true
      → contains v l ≡ true
  unfolding contains
  IsOrder-closed [] u v o m e = cc
  IsOrder-closed (x ∷ l) u v (down, o) m e = elim (Bool-cases (text_eq x u)) [
    | inl q ↦ ground (arith, down v (rw ((text_eq_iff x u).0 q) e))
    | inr q ↦ ground (arith, IsOrder-closed l u v o)
  ]

  IsOrder-walk :
      (l : List Text) (u v : Text)
      → IsOrder l
      → contains u l ≡ true
      → Walk u v
      → contains v l ≡ true
  IsOrder-walk l u v o m (one _ _ e) = IsOrder-closed l u v o m e
  IsOrder-walk l u v o m (more _ w _ e k) = IsOrder-walk l w v o (IsOrder-closed l u w o m e) k

  -- A walk from the head of the list ends in its tail.
  walk_down :
      (x : Text) (l : List Text) (v : Text)
      → ((w : Text) → edge x w ≡ true → contains w l ≡ true)
      → IsOrder l
      → Walk x v
      → contains v l ≡ true
  walk_down x l v down o (one _ _ e) = down v e
  walk_down x l v down o (more _ w _ e k) = IsOrder-walk l w v o (down w e) k

  -- No element of such a list is on a closed walk.
  pub IsOrder-acyclic : (l : List Text) (v : Text) → IsOrder l → contains v l ≡ true → ¬ Walk v v
  unfolding contains
  IsOrder-acyclic [] v o m k = cc
  IsOrder-acyclic (x ∷ l) v (down, o) m k = elim (Bool-cases (contains v l)) [
    | inl q ↦ IsOrder-acyclic l v o q k
    | inr q ↦
        let e = (text_eq_iff x v).0 (ground arith) in
        absurd
          (ground (arith, walk_down x l v (λ w n. down w n) o (subst (λ u. Walk u v) (sym e) k)))
  ]
