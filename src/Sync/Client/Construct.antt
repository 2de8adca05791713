-- ===== src/Sync/Client/Construct.antt =====
-- The construction of a client of fq/sync/client.py: the TLS context, the pool with a connection in
-- every slot, and the role of the server. `prefill` of fq/sync/pool.py stands here once more, with the
-- factory that opens connections.
pub mod Prefilled
use fq_client_py.Prelude.{
  ℕ, zero, suc, Bool, true, false, List, [], ◌∷◌, ◌++◌, Option, none, some, Str, length,
}
use fq_client_py.Errors.{Result, ok, raise, value_error}
use fq_client_py.Exec.{Exec, pure, lift, ◌>>=◌, ◌>>◌}
use fq_client_py.Floats.{Floats}
use fq_client_py.World.{World}
use fq_client_py.Types.Tls.{TlsConfig, SslContext, Files, build_context}
use fq_client_py.Reconnect.{Deadline, new_deadline}
use fq_client_py.Sync.Connection.{Config, Connection, Session, new_connection, connect}
use fq_client_py.Sync.Pool.{Pool, new_pool, drop_slot, put_all, put_empty}
use fq_client_py.Sync.Client.{Client, Settings, world_of_client, hold, on_lease}

-- The SSL context that connections use, if any.
unfoldable pub context_of :
    Files → Option TlsConfig → Option SslContext → Result (Option SslContext)
context_of files (some tls) (some context) = raise value_error
context_of files (some tls) none = elim (build_context files tls) [
  | ok context ↦ ok (some context)
  | raise e ↦ raise e
]
context_of files none context = ok context

abbrev pub is_some {ℓ} : {A : Type ℓ} → Option A → Bool
is_some none = false
is_some (some a) = true

module _ (fl : Floats) (cfg : Settings fl) where
  abbrev pub connection_of : Result (Unit {0}) × Session fl → Result (Connection fl) × World fl
  connection_of (ok x, t) = (ok t.conn, t.world)
  connection_of (raise e, t) = (raise e, t.world)

  -- `factory`
  unfoldable pub factory : Exec (World fl) (Connection fl)
  factory w =
      connection_of
        (connect fl cfg.unicode cfg.config (record { conn = new_connection fl; world = w }))

  abbrev pub opened_one :
      (List (Connection fl) → Exec (Client fl) (List (Connection fl)))
      → List (Connection fl)
      → Client fl
      → Result (Connection fl) × World fl
      → Result (List (Connection fl)) × Client fl
  opened_one rest opened s (ok c, w) = rest (opened ++ c ∷ []) (record s { world = w })
  opened_one rest opened s (raise e, w) =
      (raise e, record s { pool = put_empty (length opened) s.pool; world = w })

  -- The loop of `prefill`, and its handler
  unfoldable pub fill_slots : ℕ → List (Connection fl) → Exec (Client fl) (List (Connection fl))
  unfolding factory
  fill_slots zero opened s = (ok opened, s)
  fill_slots (suc n) opened s =
      opened_one (fill_slots n) opened
        (record s { pool = record s.pool { slots = drop_slot s.pool.slots } }) (factory s.world)

  abbrev put_back : List (Connection fl) → Exec (Client fl) (Unit {0})
  put_back opened s = (ok tt, record s { pool = put_all opened s.pool })

  unfoldable pub prefill_client : Exec (Client fl) (Unit {0})
  unfolding fill_slots
  prefill_client s = (fill_slots s.pool.size [] >>= put_back) s

  -- The last block of `__init__`: what the server said of its role and of authentication.
  unfoldable pub greet : Exec (Client fl) (Str × Bool)
  greet = do
    d ← world_of_client fl (new_deadline fl (some cfg.config.connect_timeout))
    c ← hold fl cfg d
    on_lease fl c (λ t. (ok (t.conn.role, t.conn.auth_required), t))

  abbrev pub discarded :
      Result (Str × Bool) × Client fl → Result (Client fl × Str × Bool) × World fl
  discarded (ok (role, auth_required), s) = (ok (s, role, auth_required), s.world)
  discarded (raise e, s) = (raise e, s.world)

  unfoldable pub started :
      World fl → Result (Pool (Connection fl)) → Result (Client fl × Str × Bool) × World fl
  unfolding prefill_client greet
  started w (ok p) = discarded ((prefill_client >>= λ x. greet) (record { pool = p; world = w }))
  started w (raise e) = (raise e, w)

  -- `__init__`, with a context and the settings that follow from it
  unfoldable pub new_client : ℕ → Exec (World fl) (Client fl × Str × Bool)
  unfolding started
  new_client pool_size w = started w (new_pool pool_size)

module _ (fl : Floats) where
  abbrev pub with_context : Bool → Settings fl → Settings fl
  with_context has_context cfg = record cfg {
    config = record cfg.config { has_ssl_context = has_context };
  }

  -- `Client(address, ...)`
  unfoldable pub construct :
      Files
      → Option TlsConfig
      → Option SslContext
      → Settings fl
      → ℕ
      → Exec (World fl) (Client fl × Str × Bool)
  unfolding context_of new_client
  construct files tls ssl_context cfg pool_size = do
    context ← lift (context_of files tls ssl_context)
    new_client fl (with_context (is_some context) cfg) pool_size
