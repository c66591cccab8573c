-- ===== src/Base/Assoc.antt =====
-- A Go `map[string]V` as an association list: reads, writes and deletions, their laws by key, and
-- how often a key occurs.
use grpm.Base.{
  ℕ, suc, ◌+◌, ◌-◌, ◌≤◌, ◌≡◌, refl, sym, ap, Bool, true, false, ◌||◌, Option, none, some, List, [],
  ◌∷◌, ◌++◌, ◌∙◌, arith, if◌then◌else◌, length, Text, text_eq, text_eq_iff, length-append,
}

-- How often `k` stands in a list of keys.
unfoldable pub count : Text → List Text → ℕ
count k [] = 0
count k (j ∷ l) = if text_eq j k then suc (count k l) else count k l

unfoldable pub contains : Text → List Text → Bool
contains k [] = false
contains k (j ∷ l) = text_eq j k || contains k l

pub contains-count : (k : Text) (l : List Text) → contains k l ≡ true → 1 ≤ count k l
unfolding contains count
contains-count k [] h = ground arith
contains-count k (j ∷ l) h = ground (arith, contains-count k l)

pub contains-append :
    (f : Text) (l r : List Text) → contains f (l ++ r) ≡ (contains f l || contains f r)
unfolding contains
contains-append f [] r = refl
contains-append f (k ∷ l) r = ground (arith, contains-append f l r)

-- Drops the first occurrence of `k`.
unfoldable pub remove_first : Text → List Text → List Text
remove_first k [] = []
remove_first k (j ∷ l) = if text_eq j k then l else j ∷ remove_first k l

pub count-remove_first :
    (k j : Text) (l : List Text)
    → count j (remove_first k l) ≡ (if text_eq k j then count j l - 1 else count j l)
unfolding count remove_first
count-remove_first k j [] = ground arith
count-remove_first k j (i ∷ l) =
    ground (arith, count-remove_first k j l, text_eq_iff i k, text_eq_iff i j, text_eq_iff k j)

pub count-append : (k : Text) (l r : List Text) → count k (l ++ r) ≡ count k l + count k r
unfolding count
count-append k [] r = ground arith
count-append k (j ∷ l) r = ground (arith, count-append k l r)

pub length-remove_first :
    (k : Text) (l : List Text) → 1 ≤ count k l → length (remove_first k l) + 1 ≡ length l
unfolding count remove_first
length-remove_first k [] h = absurd (omega arith)
length-remove_first k (j ∷ l) h = ground (arith, length-remove_first k l)

module _ {ℓ} {V : Type ℓ} where
  abbrev pub keys : List (Text × V) → List Text
  keys [] = []
  keys ((j, v) ∷ m) = j ∷ keys m

  unfoldable pub lookup : Text → List (Text × V) → Option V
  lookup k [] = none
  lookup k ((j, v) ∷ m) = if text_eq j k then some v else lookup k m

  -- `m[k] = v`: in place where the key is there.
  unfoldable pub insert : Text → V → List (Text × V) → List (Text × V)
  insert k v [] = (k, v) ∷ []
  insert k v ((j, w) ∷ m) = if text_eq j k then (k, v) ∷ m else (j, w) ∷ insert k v m

  -- `delete(m, k)`.
  unfoldable pub remove : Text → List (Text × V) → List (Text × V)
  remove k [] = []
  remove k ((j, w) ∷ m) = let rest = remove k m in if text_eq j k then rest else (j, w) ∷ rest

module _ {ℓ} {V : Type ℓ} where
  pub lookup-insert :
      (k j : Text) (v : V) (m : List (Text × V))
      → lookup j (insert k v m) ≡ (if text_eq k j then some v else lookup j m)
  unfolding lookup insert
  lookup-insert k j v [] = refl
  lookup-insert k j v ((i, w) ∷ m) =
      ground (arith, text_eq_iff k j, text_eq_iff i k, text_eq_iff i j, lookup-insert k j v m)

  pub lookup-remove :
      (k j : Text) (m : List (Text × V))
      → lookup j (remove k m) ≡ (if text_eq k j then none else lookup j m)
  unfolding lookup remove
  lookup-remove k j [] = ground arith
  lookup-remove k j ((i, w) ∷ m) =
      ground (arith, text_eq_iff k j, text_eq_iff i k, text_eq_iff i j, lookup-remove k j m)

  pub count-remove :
      (k j : Text) (m : List (Text × V))
      → count j (keys (remove k m)) ≡ (if text_eq k j then 0 else count j (keys m))
  unfolding count remove
  count-remove k j [] = ground arith
  count-remove k j ((i, w) ∷ m) =
      ground (arith, text_eq_iff k j, text_eq_iff i k, text_eq_iff i j, count-remove k j m)

  -- A key that is there is looked up, and conversely.
  pub lookup-count :
      (k : Text) (m : List (Text × V)) {v : V} → lookup k m ≡ some v → 1 ≤ count k (keys m)
  unfolding lookup count
  lookup-count k [] {v} h = absurd (ground arith)
  lookup-count k ((j, w) ∷ m) {v} h = ground (arith, lookup-count k m {v = v})

  pub lookup-none-count :
      (k : Text) (m : List (Text × V)) → lookup k m ≡ none → count k (keys m) ≡ 0
  unfolding lookup count
  lookup-none-count k [] h = refl
  lookup-none-count k ((j, w) ∷ m) h = ground (arith, lookup-none-count k m)

  pub insert_new :
      (k : Text) (v : V) (m : List (Text × V)) → lookup k m ≡ none → insert k v m ≡ m ++ (k, v) ∷ []
  unfolding lookup insert
  insert_new k v [] h = refl
  insert_new k v ((j, w) ∷ m) h = ground (arith, insert_new k v m)

  pub keys-insert_old :
      (k : Text) (v : V) {w : V} (m : List (Text × V))
      → lookup k m ≡ some w
      → keys (insert k v m) ≡ keys m
  unfolding lookup insert
  keys-insert_old k v {w} [] h = absurd (ground arith)
  keys-insert_old k v {w} ((j, u) ∷ m) h =
      ground (arith, text_eq_iff j k, keys-insert_old k v {w = w} m)

  pub length-remove :
      (k : Text) (m : List (Text × V)) → length (remove k m) + count k (keys m) ≡ length m
  unfolding remove count
  length-remove k [] = refl
  length-remove k ((j, w) ∷ m) = ground (arith, length-remove k m)

  pub length-keys : (m : List (Text × V)) → length (keys m) ≡ length m
  length-keys [] = refl
  length-keys ((j, w) ∷ m) = ap suc (length-keys m)

  pub keys-append : (m n : List (Text × V)) → keys (m ++ n) ≡ keys m ++ keys n
  keys-append [] n = refl
  keys-append ((j, w) ∷ m) n = ap (λ l. j ∷ l) (keys-append m n)

  pub length-insert_old :
      (k : Text) (v : V) {w : V} (m : List (Text × V))
      → lookup k m ≡ some w
      → length (insert k v m) ≡ length m
  length-insert_old k v m h =
      sym (length-keys (insert k v m)) ∙ ap length (keys-insert_old k v m h) ∙ length-keys m

  pub count-insert_new :
      (k j : Text) (v : V) (m : List (Text × V))
      → lookup k m ≡ none
      → count j (keys (insert k v m))
        ≡ (if text_eq k j then suc (count j (keys m)) else count j (keys m))
  unfolding count
  count-insert_new k j v m h = rw (insert_new k v m h, keys-append, count-append) (ground arith)

  pub length-insert_new :
      (k : Text) (v : V) (m : List (Text × V))
      → lookup k m ≡ none
      → length (insert k v m) ≡ suc (length m)
  length-insert_new k v m h = rw (insert_new k v m h) (omega (arith, length-append m ((k, v) ∷ [])))
