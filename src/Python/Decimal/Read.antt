-- ===== src/Python/Decimal/Read.antt =====
-- How `int` and `isdigit` of a `str` treat ASCII digits, whatever the rest of the database says.
use fq_client_py.Prelude.{ℕ, ◌≤◌, ◌*◌, ◌+◌, ◌-◌, ◌≡◌, refl, true, [], ◌∷◌, Str, some, length, arith}
use fq_client_py.Errors.{ok}
use fq_client_py.Python.Decimal.{
  CharacterData, is_digit, all_digits, isdigit, spell, spell_str, all_unicode_digits, str_isdigit,
  int_str, max_str_digits,
}

-- The database agrees with ASCII: `0` to `9` are digits, with their values.
pub record KnowsAscii (u : CharacterData) : Type 0 where
  pub digit : (c : ℕ) → is_digit c ≡ true → u.digit c ≡ true
  pub decimal : (c : ℕ) → is_digit c ≡ true → u.decimal_value c ≡ some (c - b'0')

module _ (u : CharacterData) (k : KnowsAscii u) where
  all_unicode_digits_of_ascii : (s : Str) → all_digits s ≡ true → all_unicode_digits u s ≡ true
  unfolding all_digits
  all_unicode_digits_of_ascii [] h = refl
  all_unicode_digits_of_ascii (c ∷ s) h = ground (arith, k.digit c, all_unicode_digits_of_ascii s)

  pub str_isdigit_of_ascii : (s : Str) → isdigit s ≡ true → str_isdigit u s ≡ true
  unfolding isdigit str_isdigit
  str_isdigit_of_ascii [] h = cc
  str_isdigit_of_ascii (c ∷ s) h = all_unicode_digits_of_ascii (c ∷ s) h

  spell_str_of_ascii : (n : ℕ) (s : Str) → all_digits s ≡ true → spell_str u n s ≡ ok (spell n s)
  unfolding all_digits
  spell_str_of_ascii n [] h = refl
  spell_str_of_ascii n (c ∷ s) h =
      ground (arith, k.decimal c, spell_str_of_ascii (n * 10 + (c - b'0')) s)

  pub int_str_of_ascii :
      (s : Str) → all_digits s ≡ true → length s ≤ max_str_digits → int_str u s ≡ ok (spell 0 s)
  unfolding int_str
  int_str_of_ascii s h fits = ground (arith, spell_str_of_ascii 0 s h)
