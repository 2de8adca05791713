-- ===== src/Sync/Retry.antt =====
-- The retries of fq/sync/client.py: `_backoff` and `_with_retry`, on the connection that the pool gave.
pub mod Attempts
pub mod Counts
pub mod Pause
pub mod Once
use fq_client_py.Prelude.{
  ℕ, zero, suc, Bool, true, false, not, ◌&&◌, ◌||◌, List, [], ◌∷◌, ◌++◌, Option, none, some,
  if◌then◌else◌,
}
use fq_client_py.Errors.{Exn, Result, ok, raise, fq_timeout_error, is_connection_error}
use fq_client_py.Exec.{Exec, pure, throw, catch, ◌>>=◌, ◌>>◌}
use fq_client_py.Python.Decimal.{CharacterData}
use fq_client_py.Commands.{Command}
use fq_client_py.Floats.{Floats}
use fq_client_py.World.{World}
use fq_client_py.Reconnect.{ReconnectPolicy, Deadline, delay, exhausted, check, clamp}
use fq_client_py.Sync.Connection.{Config, Session, on_world, conn_get, send, reconnect}

-- `except FQTimeoutError`
unfoldable pub is_timeout : Exn → Bool
is_timeout fq_timeout_error = true
is_timeout _ = false

-- What the handlers `except FQTimeoutError: raise` and `except FQConnectionError:` leave to the second.
unfoldable pub is_retried : Exn → Bool
unfolding is_timeout is_connection_error
is_retried e = is_connection_error e && not (is_timeout e)

module _ (fl : Floats) where
  open fl use {F, zero_float, less}

  -- `time.sleep(seconds)`
  abbrev pub sleep : F → Exec (World fl) (Unit {0})
  sleep seconds w = (ok tt, record w { slept = w.slept ++ seconds ∷ [] })

  unfoldable pub backoff : ReconnectPolicy fl → ℕ → Deadline fl → Exec (World fl) (Unit {0})
  backoff p attempt d = do
    check fl d
    drawn ← delay fl p attempt
    seconds ← clamp fl d drawn
    if less zero_float seconds then sleep seconds else pure tt
    check fl d

  module _ (u : CharacterData) (cfg : Config fl) (p : ReconnectPolicy fl) (command : Command)
      (d : Deadline fl) (sender : Command → Deadline fl → Exec (Session fl) (Option (List ℕ))) where
    -- The attempt to reconnect: after a FQConnectionError the loop goes on.
    unfoldable pub try_reconnect : Exec (Session fl) (Unit {0})
    unfolding is_retried
    try_reconnect = catch (reconnect fl u cfg) (λ e. if is_retried e then pure tt else throw e)

    -- Behind the guards of the handler: a pause, a new connection, and the rest of the loop.
    unfoldable pub next_attempt :
        ℕ → Exec (Session fl) (Option (List ℕ)) → Exec (Session fl) (Option (List ℕ))
    unfolding backoff try_reconnect
    next_attempt attempt rest = do on_world fl (backoff p attempt d); try_reconnect; rest

    -- The handlers, for the failed attempt number `attempt`.
    unfoldable pub on_failure :
        ℕ → Exec (Session fl) (Option (List ℕ)) → Exn → Exec (Session fl) (Option (List ℕ))
    unfolding is_retried next_attempt
    on_failure attempt rest e = do
      in_flight ← conn_get fl (λ c. c.request_in_flight)
      if not (is_retried e)
          then throw e
          else if in_flight && not command.read_only
          then throw e
          else if exhausted fl p attempt
          then throw e
          else next_attempt attempt rest

    -- The loop; `none` says that the fuel has run out.
    unfoldable pub with_retry : (fuel attempt : ℕ) → Exec (Session fl) (Option (List ℕ))
    unfolding on_failure
    with_retry zero attempt = pure none
    with_retry (suc fuel) attempt =
        catch (sender command d) (λ e. on_failure (suc attempt) (with_retry fuel (suc attempt)) e)

  -- The sender of `_execute`.
  unfoldable pub plain_send : Command → Deadline fl → Exec (Session fl) (Option (List ℕ))
  plain_send command d = do response ← send fl command d; pure (some response)
