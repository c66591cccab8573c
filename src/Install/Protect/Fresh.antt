-- ===== src/Install/Protect/Fresh.antt =====
-- Which file GenerateProtectedName of internal/install/protect.go creates.
use grpm.Base.{
  ℕ, zero, suc, ◌+◌, ◌≤◌, ◌≡◌, ◌⊎◌, inl, inr, refl, ◌∙◌, arith, Bool, true, false, ◌||◌,
  if◌then◌else◌, none, some, List, [], ◌∷◌, ◌++◌, all, Text, Bool-cases,
}
use grpm.Base.Assoc.{contains}
use grpm.Install.Protect.{FileSystem, candidate, create, try_numbers, generate_protected_name}

-- The file with the number `i` exists or cannot be created.
abbrev pub is_taken : FileSystem → Text → ℕ → Bool
is_taken fs path i = contains (candidate path i) fs.files || contains (candidate path i) fs.refused

-- `count` numbers from `i` on.
unfoldable pub numbers : ℕ → ℕ → List ℕ
numbers zero i = []
numbers (suc count) i = i ∷ numbers count (suc i)

abbrev with_file : FileSystem → Text → FileSystem
with_file fs path = record fs { files = fs.files ++ path ∷ [] }

create_lem :
    (fs : FileSystem) (path : Text) (i : ℕ)
    → create fs (candidate path i)
      ≡ (if is_taken fs path i then none else some (with_file fs (candidate path i)))
unfolding create
create_lem fs path i = refl

try_numbers-taken :
    (left i : ℕ) (fs : FileSystem) (path : Text)
    → is_taken fs path i ≡ true
    → try_numbers (suc left) i fs path ≡ try_numbers left (suc i) fs path
unfolding try_numbers
try_numbers-taken left i fs path h = rw (try_numbers, create_lem fs path i, h) refl

try_numbers-free :
    (left i : ℕ) (fs : FileSystem) (path : Text)
    → is_taken fs path i ≡ false
    → try_numbers (suc left) i fs path ≡ (with_file fs (candidate path i), candidate path i)
unfolding try_numbers candidate
try_numbers-free left i fs path h = rw (try_numbers, create_lem fs path i, h) refl

try_numbers-zero : (i : ℕ) (fs : FileSystem) (path : Text) → try_numbers 0 i fs path ≡ (fs, [])
unfolding try_numbers
try_numbers-zero i fs path = refl

all-numbers :
    (f : ℕ → Bool) (count i : ℕ)
    → f i ≡ true
    → all f (numbers count (suc i)) ≡ true
    → all f (numbers (suc count) i) ≡ true
unfolding numbers
all-numbers f count i h later = ground (arith, h, later)

no-numbers : (f : ℕ → Bool) (i : ℕ) → all f (numbers 0 i) ≡ true
unfolding numbers
no-numbers f i = refl

-- The numbers of `count` numbers from `i` on are taken, and nothing is created; or the first of them
-- that is not taken is `n`, and its file is created.
unfoldable pub Chosen : ℕ → ℕ → FileSystem → Text → FileSystem × Text → Type 0
Chosen count i fs path result =
    ((all (is_taken fs path) (numbers count i) ≡ true) × (result ≡ (fs, [])))
    ⊎ ((k : ℕ) × (n : ℕ) × (n ≡ i + k)
        × (k + 1 ≤ count)
        × (all (is_taken fs path) (numbers k i) ≡ true)
        × (is_taken fs path n ≡ false)
        × (result ≡ (with_file fs (candidate path n), candidate path n)))

try_numbers-Chosen :
    (left i : ℕ) (fs : FileSystem) (path : Text)
    → Chosen left i fs path (try_numbers left i fs path)
unfolding Chosen
try_numbers-Chosen zero i fs path =
    inl (no-numbers (is_taken fs path) i, try_numbers-zero i fs path)
try_numbers-Chosen (suc left) i fs path = elim (Bool-cases (is_taken fs path i)) [
  | inr free ↦ inr (
    0,
    i,
    omega arith,
    omega arith,
    no-numbers (is_taken fs path) i,
    free,
    try_numbers-free left i fs path free,
  )
  | inl taken ↦ elim (try_numbers-Chosen left (suc i) fs path) [
    | inl (all_taken, none_left) ↦ inl (
      all-numbers (is_taken fs path) left i taken all_taken,
      try_numbers-taken left i fs path taken ∙ none_left,
    )
    | inr (k, n, at, below, before, free, found) ↦ inr (
      suc k,
      n,
      omega arith,
      omega arith,
      all-numbers (is_taken fs path) k i taken before,
      free,
      try_numbers-taken left i fs path taken ∙ found,
    )
  ]
]

-- GenerateProtectedName takes the first of 10000 numbers whose file neither exists nor is refused
-- and adds this file to the file system; if there is none, it returns no name and the file system
-- stays as it was.
pub generate_protected_name-Chosen :
    (fs : FileSystem) (path : Text) → Chosen 10000 0 fs path (generate_protected_name fs path)
unfolding generate_protected_name
generate_protected_name-Chosen fs path = try_numbers-Chosen 10000 0 fs path
