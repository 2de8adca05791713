-- ===== src/Sync/Client/Methods.antt =====
-- The methods of the class Client in fq/sync/client.py, one for each command with one response.
use fq_client_py.Prelude.{ℕ, ℤ, Bool, List, Option, Str}
use fq_client_py.Exec.{Exec}
use fq_client_py.Types.{
  CappingKey, LimitKey, RateLimitResult, QuotaAcquireResult, QuotaInfo, ScanResult,
}
use fq_client_py.Responses.{
  parse_value, parse_bool, parse_bools, parse_rate_limit, parse_quota_acquire, parse_quota_info,
  parse_scan,
}
use fq_client_py.Commands
use fq_client_py.Floats.{Floats}
use fq_client_py.Sync.Client.{Client, Settings, Timeout, execute}

module _ (fl : Floats) (cfg : Settings fl) where
  unfoldable pub incr : CappingKey → Timeout fl → Exec (Client fl) (Option ℕ)
  incr k timeout = execute fl cfg (Commands.incr k) parse_value timeout

  unfoldable pub incrby : CappingKey → ℤ → Timeout fl → Exec (Client fl) (Option ℕ)
  incrby k value timeout = execute fl cfg (Commands.incrby k value) parse_value timeout

  unfoldable pub get : CappingKey → Timeout fl → Exec (Client fl) (Option ℕ)
  get k timeout = execute fl cfg (Commands.get k) parse_value timeout

  unfoldable pub watch : CappingKey → Timeout fl → Exec (Client fl) (Option ℕ)
  watch k timeout = execute fl cfg (Commands.watch k) parse_value timeout

  unfoldable pub delete : CappingKey → Timeout fl → Exec (Client fl) (Option Bool)
  delete k timeout = execute fl cfg (Commands.delete k) parse_bool timeout

  unfoldable pub mdelete : List CappingKey → Timeout fl → Exec (Client fl) (Option (List Bool))
  mdelete keys timeout = execute fl cfg (Commands.mdelete keys) parse_bools timeout

  unfoldable pub rlimit_fixed_window :
      LimitKey → ℤ → Timeout fl → Exec (Client fl) (Option RateLimitResult)
  rlimit_fixed_window k limit timeout =
      execute fl cfg (Commands.rlimit_fixed_window k limit) parse_rate_limit timeout

  unfoldable pub rlimit_sliding_window :
      LimitKey → ℤ → Timeout fl → Exec (Client fl) (Option RateLimitResult)
  rlimit_sliding_window k limit timeout =
      execute fl cfg (Commands.rlimit_sliding_window k limit) parse_rate_limit timeout

  unfoldable pub rlimit_token_bucket :
      LimitKey → ℤ → ℤ → Timeout fl → Exec (Client fl) (Option RateLimitResult)
  rlimit_token_bucket k capacity refill_amount timeout =
      execute fl cfg (Commands.rlimit_token_bucket k capacity refill_amount) parse_rate_limit
        timeout

  unfoldable pub quota_set : Str → ℤ → Timeout fl → Exec (Client fl) (Option Bool)
  quota_set name limit timeout = execute fl cfg (Commands.quota_set name limit) parse_bool timeout

  unfoldable pub quota_set_n : Str → ℤ → ℤ → Timeout fl → Exec (Client fl) (Option Bool)
  quota_set_n name limit clients timeout =
      execute fl cfg (Commands.quota_set_n name limit clients) parse_bool timeout

  unfoldable pub quota_acquire :
      Str → ℤ → Str → Option ℤ → Timeout fl → Exec (Client fl) (Option QuotaAcquireResult)
  quota_acquire name amount client_id ttl timeout =
      execute fl cfg (Commands.quota_acquire name amount client_id ttl) parse_quota_acquire timeout

  unfoldable pub quota_acquire_n :
      Str → Str → Option ℤ → Timeout fl → Exec (Client fl) (Option QuotaAcquireResult)
  quota_acquire_n name client_id ttl timeout =
      execute fl cfg (Commands.quota_acquire_n name client_id ttl) parse_quota_acquire timeout

  unfoldable pub quota_acquire_lease :
      Str → ℤ → ℤ → Str → Option ℤ → Timeout fl → Exec (Client fl) (Option QuotaAcquireResult)
  quota_acquire_lease name limit amount client_id ttl timeout =
      execute fl cfg (Commands.quota_acquire_lease name limit amount client_id ttl)
        parse_quota_acquire timeout

  unfoldable pub quota_release : Str → Str → Timeout fl → Exec (Client fl) (Option Bool)
  quota_release name client_id timeout =
      execute fl cfg (Commands.quota_release name client_id) parse_bool timeout

  unfoldable pub quota_delete : Str → Timeout fl → Exec (Client fl) (Option Bool)
  quota_delete name timeout = execute fl cfg (Commands.quota_delete name) parse_bool timeout

  unfoldable pub quota_info : Str → Timeout fl → Exec (Client fl) (Option QuotaInfo)
  quota_info name timeout = execute fl cfg (Commands.quota_info name) parse_quota_info timeout

  unfoldable pub scan : ℤ → Str → Timeout fl → Exec (Client fl) (Option ScanResult)
  scan count cursor timeout = execute fl cfg (Commands.scan count cursor) parse_scan timeout

  unfoldable pub pscan : Str → ℤ → Str → Timeout fl → Exec (Client fl) (Option ScanResult)
  pscan prefix count cursor timeout =
      execute fl cfg (Commands.pscan prefix count cursor) parse_scan timeout

  unfoldable pub flushdb : Timeout fl → Exec (Client fl) (Option Bool)
  flushdb timeout = execute fl cfg Commands.flushdb parse_bool timeout

  unfoldable pub truncate : Timeout fl → Exec (Client fl) (Option Bool)
  truncate timeout = execute fl cfg Commands.truncate parse_bool timeout
