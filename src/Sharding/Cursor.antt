-- ===== src/Sharding/Cursor.antt =====
-- The composite cursor of fq/_sharding.py: composing and parsing, and what a cursor from outside
-- may do.
use fq_client_py.Prelude.{
  ℕ, ◌≤◌, ◌<◌, ◌≡◌, ◌≢◌, refl, true, false, [], ◌∷◌, ◌++◌, none, Str, str_eq, arith,
}
use fq_client_py.Errors.{ok, raise, value_error}
use fq_client_py.Python.Split.Laws.{Lacks, partition-append}
use fq_client_py.Python.Decimal.{decimal, is_digit, CharacterData, str_isdigit, int_str}
use fq_client_py.Python.Decimal.Print.{isdigit-decimal, all_digits-decimal, spell-decimal}
use fq_client_py.Python.Decimal.Read.{KnowsAscii, str_isdigit_of_ascii, int_str_of_ascii}
use fq_client_py.Types.{scan_cursor_initial}
use fq_client_py.Responses.Numbers.{Fits, decimal-Lacks}
use fq_client_py.Sharding.{
  shard_cursor_separator, cursor_parts, parse_shard_cursor, make_shard_cursor,
}

-- A text with the separator behind a first part is neither of the two initial cursors.
pub composite-ne-initial :
    (s t : Str)
    → (str_eq (s ++ shard_cursor_separator ∷ t) [] ≡ false)
      × (str_eq (s ++ shard_cursor_separator ∷ t) scan_cursor_initial ≡ false)
unfolding str_eq
composite-ne-initial [] t = (refl, refl)
composite-ne-initial (a ∷ []) t = ground arith
composite-ne-initial (a ∷ b ∷ s) t = ground arith

parse_composite :
    (u : CharacterData) (s t : Str) (count : ℕ)
    → Lacks shard_cursor_separator s
    → parse_shard_cursor u (s ++ shard_cursor_separator ∷ t) count
      ≡ cursor_parts u count (s, shard_cursor_separator ∷ [], t)
unfolding parse_shard_cursor
parse_composite u s t count h =
    let (e, i) = composite-ne-initial s t in
    rw (e, i, partition-append shard_cursor_separator s t h)

module _ (u : CharacterData) (ascii : KnowsAscii u) where
  -- The cursor composed for a shard in range is parsed to that shard and the cursor of the shard.
  pub parse_shard_cursor-make_shard_cursor :
      (index count : ℕ) (cursor : Str)
      → index < count
      → Fits index
      → cursor ≢ []
      → parse_shard_cursor u (make_shard_cursor index cursor count) count ≡ ok (index, cursor)
  unfolding make_shard_cursor cursor_parts str_eq
  parse_shard_cursor-make_shard_cursor index count [] h fits full = absurd (full refl)
  parse_shard_cursor-make_shard_cursor index count (c ∷ cursor) h fits full = ground (
    arith,
    parse_composite u (decimal index) (c ∷ cursor) count
        (decimal-Lacks shard_cursor_separator index (unfold is_digit in refl)),
    str_isdigit_of_ascii u ascii (decimal index) (isdigit-decimal index),
    int_str_of_ascii u ascii (decimal index) (all_digits-decimal index) fits,
    spell-decimal index,
  )

-- A cursor that is accepted names a shard in range, where there is a shard.
pub parse_shard_cursor-lt :
    (u : CharacterData) (cursor : Str) (count : ℕ) {index : ℕ} {rest : Str}
    → 0 < count
    → parse_shard_cursor u cursor count ≡ ok (index, rest)
    → (index < count) × (rest ≢ [])
unfolding parse_shard_cursor cursor_parts str_eq
parse_shard_cursor-lt u cursor count h e = ground arith

-- Past the last shard the composed cursor is the initial one, which is parsed to the first shard:
-- the walk is over.
pub make_shard_cursor_past :
    (u : CharacterData) (index count : ℕ) (cursor : Str)
    → count ≤ index
    → (make_shard_cursor index cursor count ≡ scan_cursor_initial)
      × (parse_shard_cursor u (make_shard_cursor index cursor count) count
          ≡ ok (0, scan_cursor_initial))
unfolding make_shard_cursor parse_shard_cursor str_eq
make_shard_cursor_past u index count cursor h = ground arith

-- A cursor whose shard is one symbol that is a digit with no decimal value passes the tests, and
-- ends in Python's ValueError instead of CorruptedResponseError.
pub parse_shard_cursor_no_value :
    (u : CharacterData) (digit c : ℕ) (rest : Str) (count : ℕ)
    → u.digit digit ≡ true
    → u.decimal_value digit ≡ none
    → digit ≢ shard_cursor_separator
    → parse_shard_cursor u (digit ∷ shard_cursor_separator ∷ c ∷ rest) count ≡ raise value_error
unfolding cursor_parts str_isdigit int_str str_eq
parse_shard_cursor_no_value u digit c rest count d v h =
    ground (arith, parse_composite u (digit ∷ []) (c ∷ rest) count (h, tt))
