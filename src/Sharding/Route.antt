-- ===== src/Sharding/Route.antt =====
-- The shard of a key, of fq/_sharding.py.
use fq_client_py.Prelude.{ℕ, ◌%◌, ◌≤◌, ◌<◌, ◌≡◌, Str, ℤ, pos, negsuc, All, IsScalar, arith}
use fq_client_py.Errors.{ok, raise, shard_index_error, bind-eq-ok}
use fq_client_py.Python.Utf8.Laws.{utf8, encode-utf8}
use fq_client_py.Sharding.{
  ShardingFunc, fnv1a, fnv1a_shard, fnv_offset_basis, checked_index, resolve_shard,
}

checked_index-lt :
    (i : ℤ) (count : ℕ) {n : ℕ} → checked_index i count ≡ ok n → (n < count) × (i ≡ pos n)
checked_index-lt (pos i) count e = ground arith
checked_index-lt (negsuc i) count e = cc

-- Whatever the sharding function, a shard that is resolved lies below the number of shards, and is
-- the integer that the function returned.
pub resolve_shard-lt :
    (key : Str) (count : ℕ) (f : ShardingFunc) {n : ℕ}
    → resolve_shard key count f ≡ ok n
    → (n < count) × (f key count ≡ ok (pos n))
unfolding resolve_shard
resolve_shard-lt key count f e =
    let (i, ei, rest) = bind-eq-ok (f key count) _ e in
    let (lt, same) = checked_index-lt i count rest in (lt, rw (ei, same))

-- An integer below 0, or not below the number of shards, is refused.
pub resolve_shard_out_of_range :
    (key : Str) (count : ℕ) (f : ShardingFunc) (i : ℤ)
    → f key count ≡ ok i
    → ((n : ℕ) → i ≡ pos n → count ≤ n)
    → resolve_shard key count f ≡ raise shard_index_error
unfolding resolve_shard
resolve_shard_out_of_range key count f (pos n) e h = rw e (ground (arith, h n))
resolve_shard_out_of_range key count f (negsuc n) e h = rw e

-- With the default function every text without surrogates has a shard, where there is one: the
-- digest of its UTF-8 bytes modulo their number.
pub resolve_shard-fnv1a_shard :
    (key : Str) (count : ℕ)
    → All IsScalar key
    → 0 < count
    → resolve_shard key count fnv1a_shard ≡ ok (fnv1a fnv_offset_basis (utf8 key) % count)
unfolding resolve_shard fnv1a_shard
resolve_shard-fnv1a_shard key count h k = rw (encode-utf8 key h) (ground arith)
