-- ===== src/Aio/Client/Streams.antt =====
-- `_iter_stream` and the streams of fq/aio/client.py: a generator is its loop, run to its end, on the
-- connection that the pool gave. It does not poll, and nothing stops it but an exception; a result
-- `none` says that the fuel has run out.
use fq_client_py.Prelude.{ℕ, zero, suc, not, Option, none, some, Str, Bytes, if◌then◌else◌}
use fq_client_py.Errors.{Exn, Result, ok, is_connection_error}
use fq_client_py.Exec.{Exec, pure, throw, lift, catch, ◌>>=◌, ◌>>◌}
use fq_client_py.Types.{LimitEvent, QuotaEvent}
use fq_client_py.Responses.{parse_limit_event, parse_quota_event}
use fq_client_py.Commands
use fq_client_py.Commands.{Command}
use fq_client_py.Floats.{Floats}
use fq_client_py.Reconnect.{new_deadline, delay, exhausted}
use fq_client_py.Sync.Connection.{Session, on_world}
use fq_client_py.Sync.Retry.{sleep}
use fq_client_py.Sync.Stream.{Streaming, on_session, yield_event, count_attempt}
use fq_client_py.Sync.Client.{Client, Settings, world_of_client}
use fq_client_py.Sync.Client.Streams.{Streamed, begun}
use fq_client_py.Aio.Connection.{reconnect, open_stream, next_frame}
use fq_client_py.Aio.Pool.{acquire, on_lease}
use fq_client_py.Aio.Client.{factory}

module _ (fl : Floats) (cfg : Settings fl) {T : Type 0} (command : Command)
    (parse : Bytes → Result T) where
  -- `async for frame in connection.open_stream(command)`, without its first part
  unfoldable pub read_events : ℕ → Exec (Streaming fl T) (Option (Unit {0}))
  read_events zero = pure none
  read_events (suc fuel) = do
    frame ← on_session fl (next_frame fl none)
    elim frame [
      | none ↦ read_events fuel
      | some payload ↦ do event ← lift (parse payload); yield_event fl event; read_events fuel
    ]

  -- The block under `try`
  unfoldable pub subscribe : ℕ → Exec (Streaming fl T) (Option (Unit {0}))
  unfolding read_events
  subscribe fuel = do on_session fl (open_stream fl command); read_events fuel

  -- `except FQConnectionError: continue`
  unfoldable pub stream_reconnect : Exec (Streaming fl T) (Unit {0})
  stream_reconnect =
      catch (on_session fl (reconnect fl cfg.unicode cfg.config))
        (λ e. if is_connection_error e then pure tt else throw e)

  -- The handler `except FQConnectionError`, with the rest of the loop
  unfoldable pub on_lost :
      Exec (Streaming fl T) (Option (Unit {0})) → Exn → Exec (Streaming fl T) (Option (Unit {0}))
  unfolding stream_reconnect
  on_lost rest e = if not (is_connection_error e) then throw e else do
    attempt ← count_attempt fl
    if exhausted fl cfg.reconnect attempt then throw e else do
      seconds ← on_session fl (on_world fl (delay fl cfg.reconnect attempt))
      on_session fl (on_world fl (sleep fl seconds))
      stream_reconnect
      rest

  unfoldable pub stream_loop : ℕ → Exec (Streaming fl T) (Option (Unit {0}))
  unfolding subscribe on_lost
  stream_loop zero = pure none
  stream_loop (suc fuel) = catch (subscribe fuel) (λ e. on_lost (stream_loop fuel) e)

  -- The generator on a connection, run to its end
  unfoldable pub run_stream : Exec (Session fl) (Streamed fl cfg T)
  unfolding stream_loop
  run_stream s =
      let (r, t) = stream_loop cfg.fuel (begun fl cfg s) in (ok (t.yielded, r), t.session)

module _ (fl : Floats) (cfg : Settings fl) where
  -- `_iter_stream`, with the command as an argument that may raise before
  unfoldable pub iter_stream :
      {T : Type 0} → Result Command → (Bytes → Result T) → Exec (Client fl) (Streamed fl cfg T)
  unfolding run_stream
  iter_stream made_command parse = do
    command ← lift made_command
    d ← world_of_client fl (new_deadline fl (some cfg.config.connect_timeout))
    c ← acquire fl (factory fl cfg) d
    on_lease fl c (run_stream fl cfg command parse)

  unfoldable pub stream : Exec (Client fl) (Streamed fl cfg LimitEvent)
  unfolding iter_stream
  stream = iter_stream Commands.stream parse_limit_event

  unfoldable pub pstream : Str → Exec (Client fl) (Streamed fl cfg LimitEvent)
  unfolding iter_stream
  pstream prefix = iter_stream (Commands.pstream prefix) parse_limit_event

  unfoldable pub qstream : Exec (Client fl) (Streamed fl cfg QuotaEvent)
  unfolding iter_stream
  qstream = iter_stream Commands.qstream parse_quota_event

  unfoldable pub qpstream : Str → Exec (Client fl) (Streamed fl cfg QuotaEvent)
  unfolding iter_stream
  qpstream prefix = iter_stream (Commands.qpstream prefix) parse_quota_event
