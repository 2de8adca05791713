-- ===== src/Python/Utf8.antt =====
-- `s.encode("utf-8")` and `b.decode("utf-8", "replace")`.
pub mod Laws
pub mod Scalars
use fq_client_py.Prelude.{
  ℕ, suc, zero, ◌+◌, ◌-◌, ◌*◌, ◌/◌, ◌%◌, ◌&&◌, [], ◌∷◌, ◌++◌, Str, Bytes, ltb, leb, ◌==◌,
  if◌then◌else◌,
}
use fq_client_py.Errors.{Result, ok, raise, unicode_encode_error, ◌>>=◌}

abbrev pub continuation : ℕ → ℕ
continuation n = 0x80 + n % 64

-- The bytes of one code point. A lone surrogate is refused.
unfoldable pub encode_char : ℕ → Result Bytes
encode_char c =
    if ltb c 0x80
    then ok (c ∷ [])
    else if ltb c 0x800
    then ok ((0xc0 + c / 64) ∷ continuation c ∷ [])
    else if leb 0xd800 c && leb c 0xdfff
    then raise unicode_encode_error
    else if ltb c 0x10000
    then ok ((0xe0 + c / 4096) ∷ continuation (c / 64) ∷ continuation c ∷ [])
    else ok (
        (0xf0 + c / 262144) ∷ continuation (c / 4096) ∷ continuation (c / 64) ∷ continuation c ∷ [])

abbrev pub prepend : Bytes → Bytes → Result Bytes
prepend b bs = ok (b ++ bs)

unfoldable pub encode : Str → Result Bytes
unfolding encode_char
encode [] = ok []
encode (c ∷ s) = do b ← encode_char c; bs ← encode s; prepend b bs

-- U+FFFD
abbrev pub replacement : ℕ
replacement = 0xfffd

-- The decoder between two bytes: at the start of a character, or inside one whose bits so far are
-- `acc`. The next byte has to lie between `low` and `high`, and `more` bytes follow it.
pub data Decoder : Type 0 where
  start : Decoder
  inside : (more acc low high : ℕ) → Decoder

-- The bounds of the second byte, which keep out overlong forms, surrogates, and what is too large.
unfoldable pub low_three : ℕ → ℕ
low_three b = if b == 0xe0 then 0xa0 else 0x80

unfoldable pub high_three : ℕ → ℕ
high_three b = if b == 0xed then 0x9f else 0xbf

unfoldable pub low_four : ℕ → ℕ
low_four b = if b == 0xf0 then 0x90 else 0x80

unfoldable pub high_four : ℕ → ℕ
high_four b = if b == 0xf4 then 0x8f else 0xbf

-- The first byte of a character: what it emits, and the state behind it.
unfoldable pub first : ℕ → Str × Decoder
first b =
    if ltb b 0x80
    then (b ∷ [], start)
    else if ltb b 0xc2
    then (replacement ∷ [], start)
    else if ltb b 0xe0
    then ([], inside 0 (b - 0xc0) 0x80 0xbf)
    else if ltb b 0xf0
    then ([], inside 1 (b - 0xe0) (low_three b) (high_three b))
    else if ltb b 0xf5
    then ([], inside 2 (b - 0xf0) (low_four b) (high_four b))
    else (replacement ∷ [], start)

abbrev pub emit : Str → Str × Decoder → Str × Decoder
emit s (t, d) = (s ++ t, d)

-- A continuation byte completes the character, or leaves one byte less to come.
abbrev pub accept : ℕ → ℕ → Str × Decoder
accept zero c = (c ∷ [], start)
accept (suc more) c = ([], inside more c 0x80 0xbf)

-- A byte that cannot go on ends the character early: one replacement, and the byte starts anew.
unfoldable pub step : Decoder → ℕ → Str × Decoder
unfolding first
step start b = first b
step (inside more acc low high) b =
    if leb low b && leb b high
    then accept more (acc * 64 + (b - 0x80))
    else emit (replacement ∷ []) (first b)

unfoldable pub decode_from : Decoder → Bytes → Str
unfolding step
decode_from start [] = []
decode_from (inside more acc low high) [] = replacement ∷ []
decode_from d (b ∷ bs) = let (out, d') = step d b in out ++ decode_from d' bs

unfoldable pub decode : Bytes → Str
unfolding decode_from
decode = decode_from start
