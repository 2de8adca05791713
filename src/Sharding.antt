-- ===== src/Sharding.antt =====
-- fq/_sharding.py: the choice of a shard, the grouping of keys, and the composite cursors.
pub mod Route
pub mod Cursor
pub mod Groups
pub mod Distinct
use Prim.Native.Nat.{bit_and, bit_xor}
use fq_client_py.Prelude.{
  ℕ, suc, ◌*◌, ◌%◌, Bool, not, ◌||◌, List, [], ◌∷◌, ◌++◌, Str, Bytes, text, ℤ, pos, negsuc, leb,
  ◌==◌, str_eq, if◌then◌else◌,
}
use fq_client_py.Errors.{
  Result, ok, raise, zero_division_error, shard_index_error, corrupted_response_error, ◌>>=◌,
}
use fq_client_py.Python.Split.{partition}
use fq_client_py.Python.Utf8.{encode}
use fq_client_py.Python.Decimal.{decimal, CharacterData, str_isdigit, int_str}
use fq_client_py.Types.{CappingKey, scan_cursor_initial}

-- A sharding function may be the user's own: it may raise, and return any integer.
abbrev pub ShardingFunc : Type 0
ShardingFunc = Str → ℕ → Result ℤ

abbrev pub shard_cursor_separator : ℕ
shard_cursor_separator = b':'

abbrev pub fnv_offset_basis : ℕ
fnv_offset_basis = 0x811C9DC5

abbrev pub fnv_prime : ℕ
fnv_prime = 0x01000193

abbrev pub uint32_mask : ℕ
uint32_mask = 0xFFFFFFFF

-- The loop over the bytes.
unfoldable pub fnv1a : ℕ → Bytes → ℕ
fnv1a digest [] = digest
fnv1a digest (byte ∷ bytes) = fnv1a (bit_and (bit_xor digest byte * fnv_prime) uint32_mask) bytes

unfoldable pub fnv1a_shard : ShardingFunc
unfolding fnv1a
fnv1a_shard key shard_count = do
  bytes ← encode key
  if shard_count == 0
      then raise zero_division_error
      else ok (pos (fnv1a fnv_offset_basis bytes % shard_count))

abbrev pub checked_index : ℤ → ℕ → Result ℕ
checked_index (negsuc n) shard_count = raise shard_index_error
checked_index (pos n) shard_count = if leb shard_count n then raise shard_index_error else ok n

unfoldable pub resolve_shard : Str → ℕ → ShardingFunc → Result ℕ
resolve_shard key shard_count sharding_func = do
  index ← sharding_func key shard_count
  checked_index index shard_count

-- Python's dict from a shard to its keys with their positions, in order of insertion.
abbrev pub Grouped : Type 0
Grouped = List (ℕ × List (ℕ × CappingKey))

-- `grouped.setdefault(shard, []).append(item)`
unfoldable pub append_to : ℕ → ℕ × CappingKey → Grouped → Grouped
append_to shard item [] = (shard, item ∷ []) ∷ []
append_to shard item ((s, items) ∷ rest) =
    let later = append_to shard item rest in
    if s == shard then (s, items ++ item ∷ []) ∷ rest else (s, items) ∷ later

-- The loop over `enumerate(keys)`, from a position on.
unfoldable pub group_from : (Str → Result ℕ) → ℕ → List CappingKey → Grouped → Result Grouped
unfolding append_to
group_from resolve position [] grouped = ok grouped
group_from resolve position (key ∷ keys) grouped = do
  shard ← resolve key.key
  group_from resolve (suc position) keys (append_to shard (position, key) grouped)

unfoldable pub group_by_shard : List CappingKey → (Str → Result ℕ) → Result Grouped
unfolding group_from
group_by_shard keys resolve = group_from resolve 0 keys []

abbrev pub is_empty : Str → Bool
is_empty s = str_eq s []

-- The tests behind `partition`, and the shard of the cursor.
unfoldable pub cursor_parts : CharacterData → ℕ → Str × Str × Str → Result (ℕ × Str)
cursor_parts u shard_count (shard, separator, shard_cursor) =
    if is_empty separator || is_empty shard_cursor || not (str_isdigit u shard)
    then raise corrupted_response_error
    else do
      index ← int_str u shard
      if leb shard_count index then raise corrupted_response_error else ok (index, shard_cursor)

unfoldable pub parse_shard_cursor : CharacterData → Str → ℕ → Result (ℕ × Str)
unfolding cursor_parts
parse_shard_cursor u cursor shard_count =
    if is_empty cursor || str_eq cursor scan_cursor_initial
    then ok (0, scan_cursor_initial)
    else cursor_parts u shard_count (partition shard_cursor_separator cursor)

-- The index is below the number of shards where it is printed.
unfoldable pub make_shard_cursor : ℕ → Str → ℕ → Str
make_shard_cursor shard_index shard_cursor shard_count =
    if leb shard_count shard_index
    then scan_cursor_initial
    else decimal shard_index ++ shard_cursor_separator ∷ shard_cursor
