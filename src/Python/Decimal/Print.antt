-- ===== src/Python/Decimal/Print.antt =====
-- What a printed number looks like: digits only, not empty, and how many.
use fq_client_py.Prelude.{
  ℕ, zero, suc, ◌+◌, ◌/◌, ◌%◌, ◌^◌, ◌≤◌, ◌<◌, ◌≡◌, ◌≢◌, refl, true, [], ◌∷◌, Str, pos, length,
  arith,
}
use native.Mathlib.Nat.{pow-suc}
use fq_client_py.Errors.{ok}
use fq_client_py.Python.Decimal.{
  digits, decimal, str_int, all_digits, isdigit, isascii, spell, max_str_digits,
}

all_digits-digits :
    (fuel n : ℕ) (out : Str) → all_digits out ≡ true → all_digits (digits fuel n out) ≡ true
unfolding digits all_digits
all_digits-digits zero n out h = h
all_digits-digits (suc fuel) n out h =
    ground (arith, all_digits-digits fuel (n / 10) ((b'0' + n % 10) ∷ out))

digits-ne-nil : (fuel n : ℕ) (out : Str) → out ≢ [] → digits fuel n out ≢ []
unfolding digits
digits-ne-nil zero n out h = h
digits-ne-nil (suc fuel) n out h =
    ground (arith, digits-ne-nil fuel (n / 10) ((b'0' + n % 10) ∷ out))

pub decimal-ne-nil : (n : ℕ) → decimal n ≢ []
unfolding decimal
decimal-ne-nil n = ground (arith, digits-ne-nil n (n / 10) ((b'0' + n % 10) ∷ []))

pub all_digits-isdigit : (s : Str) → s ≢ [] → all_digits s ≡ true → isdigit s ≡ true
unfolding isdigit
all_digits-isdigit [] h e = absurd (h refl)
all_digits-isdigit (c ∷ s) h e = e

pub all_digits-decimal : (n : ℕ) → all_digits (decimal n) ≡ true
unfolding decimal all_digits
all_digits-decimal n = all_digits-digits (suc n) n [] refl

pub isdigit-decimal : (n : ℕ) → isdigit (decimal n) ≡ true
isdigit-decimal n = all_digits-isdigit (decimal n) (decimal-ne-nil n) (all_digits-decimal n)

pub isascii_of_digits : (s : Str) → all_digits s ≡ true → isascii s ≡ true
unfolding all_digits isascii
isascii_of_digits [] h = refl
isascii_of_digits (c ∷ s) h = ground (arith, isascii_of_digits s)

-- Reading the printed number gives the number.
spell-digits : (fuel n : ℕ) (out : Str) → n < fuel → spell 0 (digits fuel n out) ≡ spell n out
unfolding digits
spell-digits zero n out h = absurd (omega arith)
spell-digits (suc fuel) n out h = ground (arith, spell-digits fuel (n / 10) ((b'0' + n % 10) ∷ out))

pub spell-decimal : (n : ℕ) → spell 0 (decimal n) ≡ n
unfolding decimal
spell-decimal n = spell-digits (suc n) n [] (omega arith)

-- A number below 10 ^ k has at most k digits.
length-digits :
    (k fuel n : ℕ) (out : Str) → 0 < k → n < 10 ^ k → length (digits fuel n out) ≤ k + length out
unfolding digits
length-digits k zero n out p h = omega arith
length-digits zero (suc fuel) n out p h = absurd (omega arith)
length-digits (suc zero) (suc fuel) n out p h = ground arith
length-digits (suc (suc k)) (suc fuel) n out p h =
    ground (arith, pow-suc 10 (suc k), length-digits (suc k) fuel (n / 10) ((b'0' + n % 10) ∷ out))

pub length-decimal : (k n : ℕ) → 0 < k → n < 10 ^ k → length (decimal n) ≤ k
unfolding decimal
length-decimal k n p h = omega (arith, length-digits k (suc n) n [] p h)

-- A number of at most 4300 digits is printed.
pub str_int-pos : (n : ℕ) → length (decimal n) ≤ max_str_digits → str_int (pos n) ≡ ok (decimal n)
unfolding str_int
str_int-pos n h = ground arith
