-- ===== src/Aio/Client.antt =====
-- fq/aio/client.py: the asynchronous client. A client is made without a connection, and opened later.
pub mod Methods
pub mod Opening
pub mod Streams
pub mod Slots
pub mod Closing
use fq_client_py.Prelude.{
  ℕ, zero, Bool, true, false, List, [], ◌∷◌, Option, none, some, Str, Bytes, if◌then◌else◌,
}
use fq_client_py.Errors.{Exn, Result, ok, raise}
use fq_client_py.Exec.{Exec, pure, throw, lift, ◌>>=◌, ◌>>◌}
use fq_client_py.Commands
use fq_client_py.Commands.{Command}
use fq_client_py.Types.{InspectSection}
use fq_client_py.Floats.{Floats}
use fq_client_py.World.{World}
use fq_client_py.Reconnect.{Deadline, new_deadline}
use fq_client_py.Inspect.Json.{Json}
use fq_client_py.Inspect.Report.{InspectReport}
use fq_client_py.Inspect.Decode.{parse_inspect}
use fq_client_py.Sync.Connection.{Connection, Session, new_connection}
use fq_client_py.Sync.Pool.{Pool, new_pool}
use fq_client_py.Sync.Client.{Client, Settings, Timeout, default, given, world_of_client}
use fq_client_py.Aio.Connection.{connect}
use fq_client_py.Aio.Pool.{acquire, on_lease, prefill, aclose}
use fq_client_py.Aio.Retry.{with_retry}

module _ (fl : Floats) (cfg : Settings fl) where
  abbrev pub connection_of : Result (Unit {0}) × Session fl → Result (Connection fl) × World fl
  connection_of (ok x, t) = (ok t.conn, t.world)
  connection_of (raise e, t) = (raise e, t.world)

  -- `factory`
  unfoldable pub factory : Exec (World fl) (Connection fl)
  factory w =
      connection_of
        (connect fl cfg.unicode cfg.config (record { conn = new_connection fl; world = w }))

  unfoldable pub deadline_of : Timeout fl → Exec (Client fl) (Deadline fl)
  deadline_of default = world_of_client fl (new_deadline fl cfg.timeout)
  deadline_of (given seconds) = world_of_client fl (new_deadline fl seconds)

  abbrev pub parsed : {A : Type 0} → (Bytes → Result A) → Option Bytes → Result (Option A)
  parsed parse none = ok none
  parsed parse (some payload) = elim (parse payload) [ ok a ↦ ok (some a) | raise e ↦ raise e ]

  -- `_execute`, with the command as an argument that may raise before
  unfoldable pub execute :
      {A : Type 0} → Result Command → (Bytes → Result A) → Timeout fl → Exec (Client fl) (Option A)
  unfolding factory deadline_of
  execute made_command parse timeout = do
    command ← lift made_command
    d ← deadline_of timeout
    c ← acquire fl factory d
    payload ←
        on_lease fl c
          (with_retry fl cfg.unicode cfg.config cfg.reconnect command d false cfg.fuel cfg.fuel 0)
    lift (parsed parse payload)

  unfoldable pub inspect :
      (Bytes → Result (Json fl))
      → InspectSection
      → Timeout fl
      → Exec (Client fl) (Option (InspectReport fl))
  unfolding factory deadline_of
  inspect loads section timeout = do
    d ← deadline_of timeout
    c ← acquire fl factory d
    payload ← on_lease fl c (do
      command ← lift (Commands.inspect section)
      with_retry fl cfg.unicode cfg.config cfg.reconnect command d true cfg.fuel cfg.fuel 0)
    lift (parsed (parse_inspect loads) payload)

  -- The client with its flag, and what the server said when it was opened.
  pub record AsyncClient : Type 0 where
    pub client : Client fl
    pub is_opened : Bool
    pub server_role : Str
    pub auth_required : Bool

  -- `__init__`, behind the choice of the TLS context
  unfoldable pub new_async : ℕ → World fl → Result AsyncClient
  new_async pool_size w = elim (new_pool pool_size) [
    | raise e ↦ raise e
    | ok p ↦ ok (record {
      client = record { pool = p; world = w };
      is_opened = false;
      server_role = [];
      auth_required = false;
    })
  ]

  -- The block of `open` under `async with`
  unfoldable pub greet : Exec (Client fl) (Str × Bool)
  unfolding factory
  greet = do
    d ← world_of_client fl (new_deadline fl (some cfg.config.connect_timeout))
    c ← acquire fl factory d
    on_lease fl c (λ t. (ok (t.conn.role, t.conn.auth_required), t))

  abbrev pub greeted :
      Result (Str × Bool) × Client fl → AsyncClient → Result (Unit {0}) × AsyncClient
  greeted (ok (role, auth), t) s =
      (ok tt, record { client = t; is_opened = true; server_role = role; auth_required = auth })
  greeted (raise e, t) s = (raise e, record s { client = t })

  abbrev pub prefilled :
      Result (Unit {0}) × Client fl → AsyncClient → Result (Unit {0}) × AsyncClient
  prefilled (ok x, t) s = greeted (greet t) s
  prefilled (raise e, t) s = (raise e, record s { client = t })

  unfoldable pub open_client : Exec AsyncClient (Unit {0})
  unfolding greet factory
  open_client s = if s.is_opened then (ok tt, s) else prefilled (prefill fl factory s.client) s

  -- `AsyncClient.aclose`
  unfoldable pub aclose_client : AsyncClient → AsyncClient
  unfolding aclose
  aclose_client s = record s { client = record s.client { pool = (aclose fl s.client.pool).1 } }
