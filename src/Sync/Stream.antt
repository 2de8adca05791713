-- ===== src/Sync/Stream.antt =====
-- The streams: `open_stream` of fq/sync/connection.py and `_stream` of fq/sync/client.py, on the
-- connection that the pool gave.
--
-- A generator that is resumed until it ends is its loop, which appends to a list what it yields; what
-- the caller does between two events is not part of the model. The calls of `should_stop` are numbered,
-- and `stop` gives their answers. A result `none` says that the fuel has run out.
pub mod Held
pub mod Polling
use fq_client_py.Prelude.{
  ℕ, zero, suc, Bool, true, false, not, List, [], ◌∷◌, ◌++◌, Option, none, some, Bytes,
  if◌then◌else◌,
}
use fq_client_py.Errors.{Exn, Result, ok, raise, is_connection_error}
use fq_client_py.Exec.{Exec, pure, throw, lift, catch, ◌>>=◌, ◌>>◌}
use fq_client_py.Python.Decimal.{CharacterData}
use fq_client_py.Commands.{Command}
use fq_client_py.Floats.{Floats}
use fq_client_py.Reconnect.{ReconnectPolicy, Deadline, new_deadline, delay, exhausted}
use fq_client_py.Sync.Connection.{Config, Session, on_world, write_request, read_frame, reconnect}
use fq_client_py.Sync.Retry.{is_timeout, sleep}

module _ (fl : Floats) where
  open fl use {F}

  -- The part of `open_stream` before its loop
  unfoldable pub open_stream : Command → Exec (Session fl) (Unit {0})
  open_stream command = do d ← on_world fl (new_deadline fl none); write_request fl command d

  -- One round of its loop: a frame, or None where none came within the interval.
  unfoldable pub next_frame : Option F → Exec (Session fl) (Option Bytes)
  unfolding is_timeout
  next_frame none = do
    d ← on_world fl (new_deadline fl none)
    frame ← read_frame fl d
    pure (some frame)
  next_frame (some interval) =
      catch
        (do
          d ← on_world fl (new_deadline fl (some interval))
          frame ← read_frame fl d
          pure (some frame))
        (λ e. if is_timeout e then pure none else throw e)

  -- The generator: its connection, how often `stop` was called, its counter, what it has yielded.
  pub record Streaming (T : Type 0) : Type 0 where
    pub session : Session fl
    pub asked : ℕ
    pub attempt : ℕ
    pub yielded : List T

  module _ {T : Type 0} where
    abbrev pub on_session : {A : Type 0} → Exec (Session fl) A → Exec (Streaming T) A
    on_session m s = let (r, t) = m s.session in (r, record s { session = t })

    abbrev pub ask : (ℕ → Bool) → Exec (Streaming T) Bool
    ask stop s = (ok (stop s.asked), record s { asked = suc s.asked })

    -- `yield`, and the counter that is set back after it
    abbrev pub yield_event : T → Exec (Streaming T) (Unit {0})
    yield_event event s = (ok tt, record s { yielded = s.yielded ++ event ∷ []; attempt = 0 })

    abbrev pub count_attempt : Exec (Streaming T) ℕ
    count_attempt s = (ok (suc s.attempt), record s { attempt = suc s.attempt })

  module _ {T : Type 0} (command : Command) (parse : Bytes → Result T) (interval : Option F)
      (stop : ℕ → Bool) where
    -- `for frame in connection.open_stream(...)`, without its first part
    unfoldable pub read_events : ℕ → Exec (Streaming T) (Option (Unit {0}))
    unfolding next_frame
    read_events zero = pure none
    read_events (suc fuel) = do
      frame ← on_session (next_frame interval)
      elim frame [
        | none ↦ do
          ended ← ask stop
          elim ended [ true ↦ pure (some tt) | false ↦ read_events fuel ]
        | some payload ↦ do event ← lift (parse payload); yield_event event; read_events fuel
      ]

    -- The block under `try`
    unfoldable pub subscribe : ℕ → Exec (Streaming T) (Option (Unit {0}))
    unfolding open_stream read_events
    subscribe fuel = do on_session (open_stream command); read_events fuel

  module _ {T : Type 0} (u : CharacterData) (cfg : Config fl) (p : ReconnectPolicy fl) where
    -- `except FQConnectionError: continue`
    unfoldable pub stream_reconnect : Exec (Streaming T) (Unit {0})
    stream_reconnect =
        catch (on_session (reconnect fl u cfg))
          (λ e. if is_connection_error e then pure tt else throw e)

    -- The handler `except FQConnectionError`, with the rest of the loop.
    unfoldable pub on_lost :
        Exec (Streaming T) (Option (Unit {0})) → Exn → Exec (Streaming T) (Option (Unit {0}))
    unfolding stream_reconnect
    on_lost rest e = if not (is_connection_error e) then throw e else do
      attempt ← count_attempt
      if exhausted fl p attempt then throw e else do
        seconds ← on_session (on_world fl (delay fl p attempt))
        on_session (on_world fl (sleep fl seconds))
        stream_reconnect
        rest

    module _ (command : Command) (parse : Bytes → Result T) (interval : Option F)
        (stop : ℕ → Bool) where
      -- The loop of `_stream`
      unfoldable pub stream_loop : ℕ → Exec (Streaming T) (Option (Unit {0}))
      unfolding subscribe on_lost
      stream_loop zero = pure none
      stream_loop (suc fuel) = do
        ended ← ask stop
        elim ended [
          | true ↦ pure (some tt)
          | false ↦
              catch (subscribe command parse interval stop fuel) (λ e. on_lost (stream_loop fuel) e)
        ]
