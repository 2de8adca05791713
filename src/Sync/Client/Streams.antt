-- ===== src/Sync/Client/Streams.antt =====
-- The methods of fq/sync/client.py that fan out of one response: `inspect`, whose response comes in
-- chunks, and the streams, which hold a connection of the pool until they end.
--
-- A stream gives the events that it yielded and how its generator ended. `STREAM_POLL_INTERVAL` is an
-- argument, since the floats are a parameter of the model.
use fq_client_py.Prelude.{ℕ, Bool, false, List, [], Option, none, some, Str, Bytes}
use fq_client_py.Errors.{Result, ok}
use fq_client_py.Exec.{Exec, lift, ◌>>=◌}
use fq_client_py.Types.{InspectSection, LimitEvent, QuotaEvent}
use fq_client_py.Responses.{parse_limit_event, parse_quota_event}
use fq_client_py.Commands
use fq_client_py.Commands.{Command}
use fq_client_py.Floats.{Floats}
use fq_client_py.Reconnect.{Deadline, new_deadline}
use fq_client_py.Inspect.Json.{Json}
use fq_client_py.Inspect.Report.{InspectReport}
use fq_client_py.Inspect.Decode.{parse_inspect}
use fq_client_py.Sync.Connection.{Session, send_chunked}
use fq_client_py.Sync.Retry.{with_retry}
use fq_client_py.Sync.Stream.{Streaming, stream_loop}
use fq_client_py.Sync.Client.{
  Client, Settings, Timeout, world_of_client, deadline_of, hold, on_lease, parsed,
}

module _ (fl : Floats) (cfg : Settings fl) where
  open fl use {F}

  -- The block of `inspect` under `with`
  unfoldable pub inspect_session : InspectSection → Deadline fl → Exec (Session fl) (Option Bytes)
  inspect_session section d = do
    command ← lift (Commands.inspect section)
    with_retry fl cfg.unicode cfg.config cfg.reconnect command d (send_chunked fl cfg.fuel) cfg.fuel
        0

  unfoldable pub inspect :
      (Bytes → Result (Json fl))
      → InspectSection
      → Timeout fl
      → Exec (Client fl) (Option (InspectReport fl))
  unfolding inspect_session
  inspect loads section timeout = do
    d ← deadline_of fl cfg timeout
    c ← hold fl cfg d
    payload ← on_lease fl c (inspect_session section d)
    lift (parsed fl (parse_inspect loads) payload)

  abbrev pub begun : {T : Type 0} → Session fl → Streaming fl T
  begun s = record { session = s; asked = 0; attempt = 0; yielded = [] }

  abbrev pub Streamed : Type 0 → Type 0
  Streamed T = List T × Result (Option (Unit {0}))

  -- The generator on a connection, run to its end
  unfoldable pub run_stream :
      {T : Type 0}
      → Command
      → (Bytes → Result T)
      → Option F
      → (ℕ → Bool)
      → Exec (Session fl) (Streamed T)
  run_stream command parse interval stop s =
      let (r, t) =
        stream_loop fl cfg.unicode cfg.config cfg.reconnect command parse interval stop cfg.fuel
          (begun s) in
      (ok (t.yielded, r), t.session)

  -- `_stream`
  unfoldable pub stream_of :
      {T : Type 0}
      → Result Command
      → (Bytes → Result T)
      → Option F
      → (ℕ → Bool)
      → Exec (Client fl) (Streamed T)
  unfolding run_stream
  stream_of made_command parse interval stop = do
    command ← lift made_command
    d ← world_of_client fl (new_deadline fl (some cfg.config.connect_timeout))
    c ← hold fl cfg d
    on_lease fl c (run_stream command parse interval stop)

  -- `_never`
  abbrev pub never : ℕ → Bool
  never n = false

  unfoldable pub stream : Exec (Client fl) (Streamed LimitEvent)
  unfolding stream_of
  stream = stream_of Commands.stream parse_limit_event none never

  unfoldable pub pstream : Str → Exec (Client fl) (Streamed LimitEvent)
  unfolding stream_of
  pstream prefix = stream_of (Commands.pstream prefix) parse_limit_event none never

  unfoldable pub qstream : Exec (Client fl) (Streamed QuotaEvent)
  unfolding stream_of
  qstream = stream_of Commands.qstream parse_quota_event none never

  unfoldable pub qpstream : Str → Exec (Client fl) (Streamed QuotaEvent)
  unfolding stream_of
  qpstream prefix = stream_of (Commands.qpstream prefix) parse_quota_event none never

  module _ (stream_poll_interval : F) where
    unfoldable pub stream_polled : (ℕ → Bool) → Exec (Client fl) (Streamed LimitEvent)
    unfolding stream_of
    stream_polled should_stop =
        stream_of Commands.stream parse_limit_event (some stream_poll_interval) should_stop

    unfoldable pub pstream_polled : Str → (ℕ → Bool) → Exec (Client fl) (Streamed LimitEvent)
    unfolding stream_of
    pstream_polled prefix should_stop =
        stream_of (Commands.pstream prefix) parse_limit_event (some stream_poll_interval)
          should_stop

    unfoldable pub qstream_polled : (ℕ → Bool) → Exec (Client fl) (Streamed QuotaEvent)
    unfolding stream_of
    qstream_polled should_stop =
        stream_of Commands.qstream parse_quota_event (some stream_poll_interval) should_stop

    unfoldable pub qpstream_polled : Str → (ℕ → Bool) → Exec (Client fl) (Streamed QuotaEvent)
    unfolding stream_of
    qpstream_polled prefix should_stop =
        stream_of (Commands.qpstream prefix) parse_quota_event (some stream_poll_interval)
          should_stop
