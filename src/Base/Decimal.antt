-- ===== src/Base/Decimal.antt =====
-- `strconv.Atoi` on a text of digits, which is all that the program hands to it: a text that is not
-- one, and a number that does not fit an `int`, are errors.
use grpm.Base.{
  ℕ, ◌+◌, ◌-◌, ◌*◌, ◌^◌, ◌≤◌, ◌<◌, ◌≡◌, Bool, false, ◌&&◌, Option, none, some, [], ◌∷◌, arith, ltb,
  if◌then◌else◌, Text, all, is_digit,
}

-- The number that the digits of a text write after those of `n`.
unfoldable pub decimal_from : ℕ → Text → ℕ
decimal_from n [] = n
decimal_from n (c ∷ s) = decimal_from (n * 10 + (c - b'0')) s

unfoldable pub decimal : Text → ℕ
unfolding decimal_from
decimal s = decimal_from 0 s

abbrev pub is_number : Text → Bool
is_number [] = false
is_number (c ∷ s) = all is_digit (c ∷ s)

unfoldable pub atoi : Text → Option ℕ
unfolding decimal
atoi s = if is_number s && ltb (decimal s) (2 ^ 63) then some (decimal s) else none

pub atoi-eq-decimal : (s : Text) {n : ℕ} → atoi s ≡ some n → (n ≡ decimal s) × (n < 2 ^ 63)
unfolding atoi
atoi-eq-decimal s h = ground arith

pub decimal_from_pos : (n : ℕ) (s : Text) → 1 ≤ n → 1 ≤ decimal_from n s
unfolding decimal_from
decimal_from_pos n [] h = h
decimal_from_pos n (c ∷ s) h = decimal_from_pos (n * 10 + (c - b'0')) s (omega arith)
