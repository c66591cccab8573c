-- ===== src/Pkg/Containment/Below.antt =====
-- What `Clean` of path/filepath does with two plain names behind a rooted path.
use mathlib.Core.List.{append_assoc, reverse, reverse-cons}
use grpm.Base.{
  ◌≡◌, refl, ap, sym, ◌∙◌, arith, Bool, true, false, List, [], ◌∷◌, ◌++◌, Text, codes, text_eq,
  split_on, ◌==◌, Bool-cases, ◌⊎◌, inl, inr,
}
use grpm.Base.Paths.{no_text, clean_parts, join_parts, is_rooted, clean}
use grpm.Pkg.Package.Slots.{is_slashless, split_on-slashless}

split_on-cons : (s : Text) → (p : Text) × (ps : List Text) × (split_on b'/' s ≡ p ∷ ps)
unfolding split_on
split_on-cons [] = ([], [], refl)
split_on-cons (c ∷ s) =
    let (p, ps, e) = split_on-cons s in
    elim (Bool-cases (c == b'/')) [
      | inl h ↦ ([], split_on b'/' s, rw (split_on, h) refl)
      | inr h ↦ (c ∷ p, ps, rw (split_on, h, e) refl)
    ]

split_on-join : (s t : Text) → split_on b'/' (s ++ b'/' ∷ t) ≡ split_on b'/' s ++ split_on b'/' t
unfolding split_on
split_on-join [] t = refl
split_on-join (c ∷ s) t = let (p, ps, e) = split_on-cons s in ground (arith, split_on-join s t, e)

clean_parts-append :
    (rooted : Bool) (xs ys st : List Text)
    → clean_parts rooted (xs ++ ys) st ≡ clean_parts rooted ys (clean_parts rooted xs st)
unfolding clean_parts
clean_parts-append rooted [] ys st = refl
clean_parts-append rooted (x ∷ xs) ys st =
    clean_parts-append rooted xs ys (clean_parts rooted (x ∷ []) st)

-- A name that `Clean` keeps.
pub record IsName (p : Text) : Type 0 where
  pub some_text : no_text p ≡ false
  pub no_dot : text_eq p (codes ".") ≡ false
  pub no_dots : text_eq p (codes "..") ≡ false
  pub slashless : is_slashless p ≡ true

clean_parts-name :
    (rooted : Bool) (p : Text) (ps st : List Text)
    → IsName p
    → clean_parts rooted (p ∷ ps) st ≡ clean_parts rooted ps (p ∷ st)
unfolding clean_parts
clean_parts-name rooted p ps st h = rw (clean_parts, h.some_text, h.no_dot, h.no_dots) refl

join_parts-snoc :
    (q p : Text) (l : List Text)
    → join_parts (q ∷ (l ++ p ∷ [])) ≡ join_parts (q ∷ l) ++ (codes "/" ++ p)
unfolding join_parts
join_parts-snoc q p [] = refl
join_parts-snoc q p (r ∷ l) =
    ap (λ t. q ++ (codes "/" ++ t)) (join_parts-snoc r p l)
    ∙ sym (append_assoc q (codes "/" ++ join_parts (r ∷ l)) (codes "/" ++ p))

-- What `Clean` makes of a path, without its root.
body : List Text → Text
body st = join_parts (reverse st)

body-reversed :
    (st l : List Text) (q c p : Text)
    → reverse st ≡ q ∷ l
    → body (p ∷ c ∷ st) ≡ body st ++ (codes "/" ++ (c ++ (codes "/" ++ p)))
unfolding body
body-reversed st l q c p e =
    ap join_parts (
      reverse-cons p (c ∷ st) ∙ ap (λ r. r ++ p ∷ []) (reverse-cons c st ∙ ap (λ r. r ++ c ∷ []) e))
    ∙ join_parts-snoc q p (l ++ c ∷ [])
    ∙ ap (λ t. t ++ (codes "/" ++ p)) (join_parts-snoc q c l)
    ∙ append_assoc (join_parts (q ∷ l)) (codes "/" ++ c) (codes "/" ++ p)
    ∙ ap (λ r. join_parts r ++ (codes "/" ++ (c ++ (codes "/" ++ p)))) (sym e)

body-nil : (st : List Text) → reverse st ≡ [] → body st ≡ []
unfolding body join_parts
body-nil st e = ap join_parts e

is_root : (s : Text) → s ≡ codes "/" → text_eq s (codes "/") ≡ true
unfolding text_eq
is_root s e = rw e refl

cons-cases : (l : List Text) → (l ≡ []) ⊎ ((q : Text) × (ps : List Text) × (l ≡ q ∷ ps))
cons-cases [] = inl refl
cons-cases (q ∷ ps) = inr (q, ps, refl)

clean-body :
    (t : Text) → clean (b'/' ∷ t) ≡ b'/' ∷ body (clean_parts true (split_on b'/' (b'/' ∷ t)) [])
unfolding clean is_rooted body
clean-body t = refl

no_parts : (rooted : Bool) (st : List Text) → clean_parts rooted [] st ≡ st
unfolding clean_parts
no_parts rooted st = refl

module _ (t c p : Text) (hc : IsName c) (hp : IsName p) where
  names_split :
      split_on b'/' ((b'/' ∷ t) ++ (codes "/" ++ (c ++ (codes "/" ++ p))))
      ≡ split_on b'/' (b'/' ∷ t) ++ c ∷ p ∷ []
  names_split =
      split_on-join (b'/' ∷ t) (c ++ (codes "/" ++ p))
      ∙ ap (λ l. split_on b'/' (b'/' ∷ t) ++ l)
          (split_on-join c p
            ∙ (rw (split_on-slashless c hc.slashless, split_on-slashless p hp.slashless) refl))

  stack : List Text
  stack = clean_parts true (split_on b'/' (b'/' ∷ t)) []

  names_stacked :
      clean_parts true (split_on b'/' ((b'/' ∷ t) ++ (codes "/" ++ (c ++ (codes "/" ++ p))))) []
      ≡ p ∷ c ∷ stack
  unfolding stack
  names_stacked =
      ap (λ l. clean_parts true l []) names_split
      ∙ clean_parts-append true (split_on b'/' (b'/' ∷ t)) (c ∷ p ∷ []) []
      ∙ clean_parts-name true c (p ∷ []) stack hc
      ∙ clean_parts-name true p [] (c ∷ stack) hp
      ∙ no_parts true (p ∷ c ∷ stack)

  -- Two plain names behind a rooted path other than the root stay behind what `Clean` makes of it.
  pub clean-names :
      text_eq (clean (b'/' ∷ t)) (codes "/") ≡ false
      → clean ((b'/' ∷ t) ++ (codes "/" ++ (c ++ (codes "/" ++ p))))
        ≡ clean (b'/' ∷ t) ++ (codes "/" ++ (c ++ (codes "/" ++ p)))
  unfolding clean_parts stack
  clean-names h = elim (cons-cases (reverse stack)) [
    | inl e ↦
        absurd (ground (arith, h, is_root _ (clean-body t ∙ ap (λ s. b'/' ∷ s) (body-nil stack e))))
    | inr (q, l, e) ↦
        clean-body (t ++ (codes "/" ++ (c ++ (codes "/" ++ p))))
        ∙ ap (λ st. b'/' ∷ body st) names_stacked
        ∙ ap (λ s. b'/' ∷ s) (body-reversed stack l q c p e)
        ∙ ap (λ s. s ++ (codes "/" ++ (c ++ (codes "/" ++ p)))) (sym (clean-body t))
  ]
