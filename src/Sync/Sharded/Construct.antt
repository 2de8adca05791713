-- ===== src/Sync/Sharded/Construct.antt =====
-- The construction and the end of a sharded client of fq/sync/sharded.py.
pub mod Ends
use fq_client_py.Prelude.{List, [], ◌∷◌, ◌++◌, Option, Str, Bool, ◌||◌, ℕ}
use fq_client_py.Errors.{Exn, Result, ok, raise, value_error}
use fq_client_py.Floats.{Floats}
use fq_client_py.World.{World}
use fq_client_py.Types.Tls.{TlsConfig, SslContext, Files}
use fq_client_py.Sync.Pool
use fq_client_py.Sync.Client.{Client, Settings}
use fq_client_py.Sync.Client.Construct.{construct, with_context, is_some}
use fq_client_py.Sync.Sharded.Methods.{Shard}

module _ (fl : Floats) where
  -- `Client.close`
  unfoldable pub close_client : Client fl → Client fl
  close_client s = record s { pool = (Pool.close s.pool).1 }

  -- `close`
  unfoldable pub close : List (Shard fl) → List (Shard fl)
  unfolding close_client
  close [] = []
  close (s ∷ shards) = record s { client = close_client s.client } ∷ close shards

  -- The shards that were opened, or the exception and the shards that were closed for it.
  abbrev pub Opened : Type 0
  Opened = Result (List (Shard fl)) × List (Shard fl)

  module _ (files : Files) (tls : Option TlsConfig) (ssl_context : Option SslContext)
      (pool_size : ℕ) where
    abbrev pub appended :
        (List (Shard fl) → Opened)
        → List (Shard fl)
        → Settings fl
        → Result (Client fl × Str × Bool) × World fl
        → Opened
    appended rest shards cfg (ok (c, role, auth_required), w) = rest (
        shards
        ++ record {
          settings = with_context fl (is_some tls || is_some ssl_context) cfg;
          client = c;
        }
          ∷ [])
    appended rest shards cfg (raise e, w) = (raise e, close shards)

    -- The loop over the addresses. Each address has its settings and what its client meets.
    unfoldable pub open_shards : List (Settings fl × World fl) → List (Shard fl) → Opened
    unfolding close
    open_shards [] shards = (ok shards, [])
    open_shards ((cfg, w) ∷ addresses) shards =
        appended (open_shards addresses) shards cfg
          (construct fl files tls ssl_context cfg pool_size w)

    -- `__init__`
    unfoldable pub new_sharded : List (Settings fl × World fl) → Opened
    unfolding open_shards
    new_sharded [] = (raise value_error, [])
    new_sharded (address ∷ addresses) = open_shards (address ∷ addresses) []
