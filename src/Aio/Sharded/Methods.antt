-- ===== src/Aio/Sharded/Methods.antt =====
-- The methods of the class AsyncShardedClient in fq/aio/sharded.py. The loops over the shards are those
-- of the synchronous client.
use fq_client_py.Prelude.{ℕ, ℤ, Bool, List, Option, Str, Bytes}
use fq_client_py.Errors.{Result}
use fq_client_py.Exec.{Exec}
use fq_client_py.Types.{
  CappingKey, LimitKey, RateLimitResult, QuotaAcquireResult, QuotaInfo, ScanResult, InspectSection,
}
use fq_client_py.Python.Decimal.{CharacterData}
use fq_client_py.Sharding.{ShardingFunc}
use fq_client_py.Floats.{Floats}
use fq_client_py.Inspect.Json.{Json}
use fq_client_py.Inspect.Report.{InspectReport}
use fq_client_py.Sync.Client.{Timeout}
use fq_client_py.Sync.Sharded.{by_key, each_shard, all_shards, mdelete_by, walk}
use fq_client_py.Aio.Client
use fq_client_py.Aio.Client.Methods
use fq_client_py.Aio.Sharded.{AsyncShard, on_client}

module _ (fl : Floats) (f : ShardingFunc) where
  unfoldable pub incr : CappingKey → Timeout fl → Exec (List (AsyncShard fl)) (Option ℕ)
  unfolding by_key
  incr k timeout = by_key f k.key (on_client fl (λ cfg. Methods.incr fl cfg k timeout))

  unfoldable pub incrby : CappingKey → ℤ → Timeout fl → Exec (List (AsyncShard fl)) (Option ℕ)
  unfolding by_key
  incrby k value timeout =
      by_key f k.key (on_client fl (λ cfg. Methods.incrby fl cfg k value timeout))

  unfoldable pub get : CappingKey → Timeout fl → Exec (List (AsyncShard fl)) (Option ℕ)
  unfolding by_key
  get k timeout = by_key f k.key (on_client fl (λ cfg. Methods.get fl cfg k timeout))

  unfoldable pub watch : CappingKey → Timeout fl → Exec (List (AsyncShard fl)) (Option ℕ)
  unfolding by_key
  watch k timeout = by_key f k.key (on_client fl (λ cfg. Methods.watch fl cfg k timeout))

  unfoldable pub delete : CappingKey → Timeout fl → Exec (List (AsyncShard fl)) (Option Bool)
  unfolding by_key
  delete k timeout = by_key f k.key (on_client fl (λ cfg. Methods.delete fl cfg k timeout))

  unfoldable pub rlimit_fixed_window :
      LimitKey → ℤ → Timeout fl → Exec (List (AsyncShard fl)) (Option RateLimitResult)
  unfolding by_key
  rlimit_fixed_window k limit timeout =
      by_key f k.key (on_client fl (λ cfg. Methods.rlimit_fixed_window fl cfg k limit timeout))

  unfoldable pub rlimit_sliding_window :
      LimitKey → ℤ → Timeout fl → Exec (List (AsyncShard fl)) (Option RateLimitResult)
  unfolding by_key
  rlimit_sliding_window k limit timeout =
      by_key f k.key (on_client fl (λ cfg. Methods.rlimit_sliding_window fl cfg k limit timeout))

  unfoldable pub rlimit_token_bucket :
      LimitKey → ℤ → ℤ → Timeout fl → Exec (List (AsyncShard fl)) (Option RateLimitResult)
  unfolding by_key
  rlimit_token_bucket k capacity refill_amount timeout =
      by_key f k.key
        (on_client fl (λ cfg. Methods.rlimit_token_bucket fl cfg k capacity refill_amount timeout))

  unfoldable pub quota_set : Str → ℤ → Timeout fl → Exec (List (AsyncShard fl)) (Option Bool)
  unfolding by_key
  quota_set name limit timeout =
      by_key f name (on_client fl (λ cfg. Methods.quota_set fl cfg name limit timeout))

  unfoldable pub quota_set_n : Str → ℤ → ℤ → Timeout fl → Exec (List (AsyncShard fl)) (Option Bool)
  unfolding by_key
  quota_set_n name limit clients timeout =
      by_key f name (on_client fl (λ cfg. Methods.quota_set_n fl cfg name limit clients timeout))

  unfoldable pub quota_acquire :
      Str
      → ℤ
      → Str
      → Option ℤ
      → Timeout fl
      → Exec (List (AsyncShard fl)) (Option QuotaAcquireResult)
  unfolding by_key
  quota_acquire name amount client_id ttl timeout =
      by_key f name
        (on_client fl (λ cfg. Methods.quota_acquire fl cfg name amount client_id ttl timeout))

  unfoldable pub quota_acquire_n :
      Str → Str → Option ℤ → Timeout fl → Exec (List (AsyncShard fl)) (Option QuotaAcquireResult)
  unfolding by_key
  quota_acquire_n name client_id ttl timeout =
      by_key f name
        (on_client fl (λ cfg. Methods.quota_acquire_n fl cfg name client_id ttl timeout))

  unfoldable pub quota_acquire_lease :
      Str
      → ℤ
      → ℤ
      → Str
      → Option ℤ
      → Timeout fl
      → Exec (List (AsyncShard fl)) (Option QuotaAcquireResult)
  unfolding by_key
  quota_acquire_lease name limit amount client_id ttl timeout = by_key f name (
      on_client fl
        (λ cfg. Methods.quota_acquire_lease fl cfg name limit amount client_id ttl timeout))

  unfoldable pub quota_release : Str → Str → Timeout fl → Exec (List (AsyncShard fl)) (Option Bool)
  unfolding by_key
  quota_release name client_id timeout =
      by_key f name (on_client fl (λ cfg. Methods.quota_release fl cfg name client_id timeout))

  unfoldable pub quota_delete : Str → Timeout fl → Exec (List (AsyncShard fl)) (Option Bool)
  unfolding by_key
  quota_delete name timeout =
      by_key f name (on_client fl (λ cfg. Methods.quota_delete fl cfg name timeout))

  unfoldable pub quota_info : Str → Timeout fl → Exec (List (AsyncShard fl)) (Option QuotaInfo)
  unfolding by_key
  quota_info name timeout =
      by_key f name (on_client fl (λ cfg. Methods.quota_info fl cfg name timeout))

  unfoldable pub mdelete :
      List CappingKey → Timeout fl → Exec (List (AsyncShard fl)) (Option (List Bool))
  unfolding mdelete_by
  mdelete keys timeout =
      mdelete_by (λ ks. on_client fl (λ cfg. Methods.mdelete fl cfg ks timeout)) f keys

module _ (fl : Floats) where
  unfoldable pub scan :
      CharacterData → ℤ → Str → Timeout fl → Exec (List (AsyncShard fl)) (Option ScanResult)
  unfolding walk
  scan u count cursor timeout =
      walk
        (λ shard_cursor remaining.
          on_client fl (λ cfg. Methods.scan fl cfg remaining shard_cursor timeout))
        u cursor count

  unfoldable pub pscan :
      CharacterData → Str → ℤ → Str → Timeout fl → Exec (List (AsyncShard fl)) (Option ScanResult)
  unfolding walk
  pscan u prefix count cursor timeout =
      walk
        (λ shard_cursor remaining.
          on_client fl (λ cfg. Methods.pscan fl cfg prefix remaining shard_cursor timeout))
        u cursor count

  unfoldable pub flushdb : Timeout fl → Exec (List (AsyncShard fl)) (Option Bool)
  unfolding all_shards
  flushdb timeout = all_shards (on_client fl (λ cfg. Methods.flushdb fl cfg timeout))

  unfoldable pub truncate : Timeout fl → Exec (List (AsyncShard fl)) (Option Bool)
  unfolding all_shards
  truncate timeout = all_shards (on_client fl (λ cfg. Methods.truncate fl cfg timeout))

  unfoldable pub inspect :
      (Bytes → Result (Json fl))
      → InspectSection
      → Timeout fl
      → Exec (List (AsyncShard fl)) (Option (List (InspectReport fl)))
  unfolding each_shard
  inspect loads section timeout =
      each_shard (on_client fl (λ cfg. Client.inspect fl cfg loads section timeout))
