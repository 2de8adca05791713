-- ===== src/Sync/Client.antt =====
-- The commands of fq/sync/client.py: a connection of the pool, the retries on it, and the decoder.
--
-- One thread is modelled, so an empty pool is the end of the wait for a connection. `fuel` bounds the
-- rounds of the retries, and a result `none` says that it has run out.
pub mod Methods
pub mod Slots
pub mod Streams
pub mod Construct
use fq_client_py.Prelude.{
  ℕ, zero, suc, Bool, true, false, List, [], ◌∷◌, Option, none, some, if◌then◌else◌,
}
use fq_client_py.Errors.{Exn, Result, ok, raise, pool_closed_error}
use fq_client_py.Exec.{Exec, pure, throw, lift, ◌>>=◌, ◌>>◌}
use fq_client_py.Python.Decimal.{CharacterData}
use fq_client_py.Commands.{Command}
use fq_client_py.Floats.{Floats}
use fq_client_py.World.{World}
use fq_client_py.Reconnect.{ReconnectPolicy, Deadline, new_deadline, remaining}
use fq_client_py.Sync.Connection.{Config, Connection, Session, new_connection, closed, connect}
use fq_client_py.Sync.Retry.{with_retry, plain_send}
use fq_client_py.Sync.Pool.{Pool, put, take, release}

module _ (fl : Floats) where
  open fl use {F}

  -- The argument `timeout` of a command: `DEFAULT`, or a number of seconds, or None.
  pub data Timeout : Type 0 where
    default : Timeout
    given : Option F → Timeout

  -- What `__init__` sets and no command changes.
  pub record Settings : Type 0 where
    pub unicode : CharacterData
    pub config : Config fl
    pub timeout : Option F
    pub reconnect : ReconnectPolicy fl
    pub fuel : ℕ

  pub record Client : Type 0 where
    pub pool : Pool (Connection fl)
    pub world : World fl

  abbrev pub world_of_client : {A : Type 0} → Exec (World fl) A → Exec Client A
  world_of_client m s = let (r, w) = m s.world in (r, record s { world = w })

  unfoldable pub deadline_of : Settings → Timeout → Exec Client (Deadline fl)
  deadline_of cfg default = world_of_client (new_deadline fl cfg.timeout)
  deadline_of cfg (given seconds) = world_of_client (new_deadline fl seconds)

  abbrev pub made : Result (Unit {0}) × Session fl → Client → Result (Connection fl) × Client
  made (ok x, t) s = (ok t.conn, record s { world = t.world })
  made (raise e, t) s = (raise e, record s { pool = put none s.pool; world = t.world })

  -- The connection of a slot that was taken, or a new one by `factory`.
  unfoldable pub from_slot : Settings → Option (Connection fl) → Exec Client (Connection fl)
  from_slot cfg (some c) s = (ok c, s)
  from_slot cfg none s =
      made
        (connect fl cfg.unicode cfg.config (record { conn = new_connection fl; world = s.world })) s

  unfoldable pub take_slot : Option F → Exec Client (Option (Connection fl))
  take_slot left s = let (r, p) = take left s.pool in (r, record s { pool = p })

  -- `self._pool.acquire(deadline)` up to its `yield`
  unfoldable pub hold : Settings → Deadline fl → Exec Client (Connection fl)
  unfolding from_slot take_slot
  hold cfg d s =
      (if s.pool.is_closed then throw pool_closed_error else do
        left ← world_of_client (remaining fl d)
        slot ← take_slot left
        from_slot cfg slot)
        s

  abbrev pub given_back : {A : Type 0} → Result A × Session fl → Client → Result A × Client
  given_back (r, t) s =
      (r, record s { pool = (release (closed fl) t.conn s.pool).1; world = t.world })

  -- The block under `with`, and the end of the lease.
  unfoldable pub on_lease : {A : Type 0} → Connection fl → Exec (Session fl) A → Exec Client A
  on_lease c m s = given_back (m (record { conn = c; world = s.world })) s

  abbrev pub parsed : {A : Type 0} → (List ℕ → Result A) → Option (List ℕ) → Result (Option A)
  parsed parse none = ok none
  parsed parse (some payload) = elim (parse payload) [ ok a ↦ ok (some a) | raise e ↦ raise e ]

  -- `_execute`, with the command as an argument that may raise before
  unfoldable pub execute :
      {A : Type 0}
      → Settings
      → Result Command
      → (List ℕ → Result A)
      → Timeout
      → Exec Client (Option A)
  unfolding deadline_of hold on_lease
  execute cfg made_command parse timeout = do
    command ← lift made_command
    d ← deadline_of cfg timeout
    c ← hold cfg d
    payload ←
        on_lease c
          (with_retry fl cfg.unicode cfg.config cfg.reconnect command d (plain_send fl) cfg.fuel 0)
    lift (parsed parse payload)
