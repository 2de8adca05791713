-- ===== src/Responses/Numbers.antt =====
-- The number fields of a response: `parse_uint` of fq/_responses.py.
use fq_client_py.Prelude.{ℕ, ◌≤◌, ◌≡◌, ◌↔◌, sym, true, false, [], ◌∷◌, Bytes, length, arith}
use fq_client_py.Errors.{Exn, ok, raise, is_fq_error}
use fq_client_py.Types.{max_value}
use fq_client_py.Python.Split.Laws.{Lacks}
use fq_client_py.Python.Decimal.{decimal, is_digit, all_digits, isdigit, spell, max_str_digits}
use fq_client_py.Python.Decimal.Print.{
  isdigit-decimal, all_digits-decimal, isascii_of_digits, spell-decimal, length-decimal,
}
use fq_client_py.Responses.{parse_uint}

-- A number that Python prints and reads.
abbrev pub Fits : ℕ → Type 0
Fits n = length (decimal n) ≤ max_str_digits

-- All 64-bit values fit.
pub max_value-Fits : (n : ℕ) → n ≤ max_value → Fits n
max_value-Fits n h = omega (arith, length-decimal 19 n)

isdigit-all_digits : (f : Bytes) → isdigit f ≡ true → all_digits f ≡ true
unfolding isdigit
isdigit-all_digits [] h = cc
isdigit-all_digits (c ∷ s) h = h

-- A field is read exactly if it is one or more ASCII digits, at most 4300 of them, and the result
-- is the number that they spell.
pub parse_uint_exact :
    (f : Bytes) (n : ℕ)
    → (parse_uint f ≡ ok n) ↔ ((isdigit f ≡ true) × (length f ≤ max_str_digits) × (n ≡ spell 0 f))
unfolding parse_uint
parse_uint_exact [] n = unfold isdigit in ground arith
parse_uint_exact (c ∷ s) n = ground (arith, isascii_of_digits (c ∷ s), isdigit-all_digits (c ∷ s))

pub parse_uint_errors :
    (f : Bytes) (e : Exn)
    → length f ≤ max_str_digits
    → parse_uint f ≡ raise e
    → is_fq_error e ≡ true
unfolding parse_uint is_fq_error
parse_uint_errors [] e h k = ground arith
parse_uint_errors (c ∷ s) e h k = ground arith

pub parse_uint-decimal : (n : ℕ) → Fits n → parse_uint (decimal n) ≡ ok n
parse_uint-decimal n h =
    (parse_uint_exact (decimal n) n).1 (isdigit-decimal n, h, sym (spell-decimal n))

all_digits-Lacks : (sep : ℕ) (s : Bytes) → is_digit sep ≡ false → all_digits s ≡ true → Lacks sep s
unfolding all_digits
all_digits-Lacks sep [] h k = tt
all_digits-Lacks sep (c ∷ s) h k = (λ e. ground arith, all_digits-Lacks sep s h (ground arith))

-- A printed number holds no separator.
pub decimal-Lacks : (sep n : ℕ) → is_digit sep ≡ false → Lacks sep (decimal n)
decimal-Lacks sep n h = all_digits-Lacks sep (decimal n) h (all_digits-decimal n)
