-- ===== src/Base/Sort.antt =====
-- `sort.Strings`, and `sort.Slice` by a text: a stable sort in byte order.
use grpm.Base.{
  Bool, true, false, ◌||◌, ◌≡◌, refl, ap, arith, List, [], ◌∷◌, if◌then◌else◌, Text, text_eq,
  text_compare,
}
use grpm.Base.Order.{Ordering}
use grpm.Base.Assoc.{contains}

-- Byte order with equal texts on both sides.
abbrev pub text_le : Text → Text → Bool
text_le s t = elim (text_compare s t) [ Ordering.gt ↦ false | _ ↦ true ]

module _ {ℓ} {A : Type ℓ} (key : A → Text) where
  unfoldable pub insert_by : A → List A → List A
  unfolding text_compare
  insert_by a [] = a ∷ []
  insert_by a (b ∷ l) =
      let later = insert_by a l in if text_le (key a) (key b) then a ∷ b ∷ l else b ∷ later

  unfoldable pub sort_by : List A → List A
  unfolding insert_by
  sort_by [] = []
  sort_by (a ∷ l) = insert_by a (sort_by l)

  abbrev pub keys_by : List A → List Text
  keys_by [] = []
  keys_by (a ∷ l) = key a ∷ keys_by l

  contains-insert_by :
      (k : Text) (a : A) (l : List A)
      → contains k (keys_by (insert_by a l)) ≡ (text_eq (key a) k || contains k (keys_by l))
  unfolding insert_by contains
  contains-insert_by k a [] = refl
  contains-insert_by k a (b ∷ l) = ground (arith, contains-insert_by k a l)

  pub contains-sort_by :
      (k : Text) (l : List A) → contains k (keys_by (sort_by l)) ≡ contains k (keys_by l)
  unfolding sort_by contains
  contains-sort_by k [] = refl
  contains-sort_by k (a ∷ l) =
      ground (arith, contains-insert_by k a (sort_by l), contains-sort_by k l)

abbrev pub sort : List Text → List Text
sort = sort_by (λ t. t)

keys_by_id : (l : List Text) → keys_by (λ t. t) l ≡ l
keys_by_id [] = refl
keys_by_id (t ∷ l) = ap (λ r. t ∷ r) (keys_by_id l)

pub contains-sort : (k : Text) (l : List Text) → contains k (sort l) ≡ contains k l
contains-sort k l = rw (← keys_by_id (sort l), contains-sort_by, keys_by_id) refl
