-- ===== src/Python/Decimal.antt =====
-- `str(int)`, `int(...)` and `isdigit`. Python refuses to convert more than 4300 digits either way,
-- with a ValueError (`sys.int_info.default_max_str_digits`).
pub mod Print
pub mod Read
use fq_client_py.Prelude.{
  ℕ, zero, suc, ◌+◌, ◌-◌, ◌*◌, ◌/◌, ◌%◌, Bool, true, false, ◌&&◌, List, [], ◌∷◌, Option, none, some,
  Str, Bytes, ℤ, pos, negsuc, ltb, leb, length, if◌then◌else◌,
}
use fq_client_py.Errors.{Result, ok, raise, value_error, ◌>>=◌}

abbrev pub max_str_digits : ℕ
max_str_digits = 4300

-- The digits of `n`, put in front of `out`; `n` rounds are enough.
unfoldable pub digits : ℕ → ℕ → Str → Str
digits zero n out = out
digits (suc fuel) n out =
    let rest = digits fuel (n / 10) ((b'0' + n % 10) ∷ out) in
    if ltb n 10 then (b'0' + n) ∷ out else rest

unfoldable pub decimal : ℕ → Str
unfolding digits
decimal n = digits (suc n) n []

abbrev pub bounded_digits : Str → Result Str
bounded_digits s = if ltb max_str_digits (length s) then raise value_error else ok s

abbrev pub minus : Str → Result Str
minus s = ok (b'-' ∷ s)

-- `str(n)`
unfoldable pub str_int : ℤ → Result Str
unfolding decimal
str_int (pos n) = bounded_digits (decimal n)
str_int (negsuc n) = do s ← bounded_digits (decimal (suc n)); minus s

-- `b.isdigit()` for bytes: one or more ASCII digits
unfoldable pub is_digit : ℕ → Bool
is_digit c = leb b'0' c && leb c b'9'

unfoldable pub all_digits : Bytes → Bool
unfolding is_digit
all_digits [] = true
all_digits (c ∷ s) = is_digit c && all_digits s

unfoldable pub isdigit : Bytes → Bool
unfolding all_digits
isdigit [] = false
isdigit (c ∷ s) = all_digits (c ∷ s)

-- `b.isascii()`
unfoldable pub isascii : Bytes → Bool
isascii [] = true
isascii (c ∷ s) = ltb c 128 && isascii s

-- The number that decimal digits spell behind `n`.
abbrev pub spell : ℕ → Bytes → ℕ
spell n [] = n
spell n (c ∷ s) = spell (n * 10 + (c - b'0')) s

-- `int(b)`, for bytes that are ASCII digits only
unfoldable pub int_bytes : Bytes → Result ℕ
int_bytes s = if ltb max_str_digits (length s) then raise value_error else ok (spell 0 s)

-- The part of the Unicode character database that `str.isdigit` and `int` consult; it changes from
-- one release of Python to the next. Outside ASCII a digit may have no decimal value: `²` has none.
pub record CharacterData : Type 0 where
  pub digit : ℕ → Bool
  pub decimal_value : ℕ → Option ℕ

-- `s.isdigit()` for a `str`
abbrev pub all_unicode_digits : CharacterData → Str → Bool
all_unicode_digits u [] = true
all_unicode_digits u (c ∷ s) = u.digit c && all_unicode_digits u s

unfoldable pub str_isdigit : CharacterData → Str → Bool
str_isdigit u [] = false
str_isdigit u (c ∷ s) = all_unicode_digits u (c ∷ s)

-- `int(s)`, for a `str` of which every symbol is a digit by the database
abbrev pub spell_str : CharacterData → ℕ → Str → Result ℕ
spell_str u n [] = ok n
spell_str u n (c ∷ s) = elim (u.decimal_value c) [
  | none ↦ raise value_error
  | some d ↦ spell_str u (n * 10 + d) s
]

unfoldable pub int_str : CharacterData → Str → Result ℕ
int_str u s = if ltb max_str_digits (length s) then raise value_error else spell_str u 0 s
