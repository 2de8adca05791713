-- ===== src/Aio/Retry.antt =====
-- The retries of fq/aio/client.py: `_backoff` and `_with_retry`, on the connection that the pool gave.
use fq_client_py.Prelude.{
  ℕ, zero, suc, Bool, not, ◌&&◌, ◌||◌, Option, none, some, Bytes, if◌then◌else◌, true, false,
}
use fq_client_py.Errors.{Exn}
use fq_client_py.Exec.{Exec, pure, throw, catch, ◌>>=◌, ◌>>◌}
use fq_client_py.Python.Decimal.{CharacterData}
use fq_client_py.Commands.{Command}
use fq_client_py.Floats.{Floats}
use fq_client_py.World.{World}
use fq_client_py.Reconnect.{ReconnectPolicy, Deadline, delay, exhausted, check, clamp}
use fq_client_py.Sync.Connection.{Config, Session, on_world, conn_get}
use fq_client_py.Sync.Retry.{is_retried, sleep}
use fq_client_py.Aio.Connection.{send, send_chunked, reconnect}

module _ (fl : Floats) where
  open fl use {zero_float, less}

  unfoldable pub backoff : ReconnectPolicy fl → ℕ → Deadline fl → Exec (World fl) (Unit {0})
  backoff p attempt d = do
    check fl d
    drawn ← delay fl p attempt
    seconds ← clamp fl d drawn
    if less zero_float seconds then sleep fl seconds else pure tt
    check fl d

  module _ (u : CharacterData) (cfg : Config fl) (p : ReconnectPolicy fl) (command : Command)
      (d : Deadline fl) where
    -- The attempt to reconnect: after a FQConnectionError the loop goes on.
    unfoldable pub try_reconnect : Exec (Session fl) (Unit {0})
    try_reconnect = catch (reconnect fl u cfg) (λ e. if is_retried e then pure tt else throw e)

    -- The handlers, for the failed attempt number `attempt`.
    unfoldable pub on_failure :
        ℕ → Exec (Session fl) (Option Bytes) → Exn → Exec (Session fl) (Option Bytes)
    unfolding backoff try_reconnect
    on_failure attempt rest e = do
      in_flight ← conn_get fl (λ c. c.request_in_flight)
      if not (is_retried e) || in_flight && not command.read_only || exhausted fl p attempt
          then throw e
          else do on_world fl (backoff p attempt d); try_reconnect; rest

    -- The call of the connection, by `chunked`; `chunks` bounds the frames of a response.
    unfoldable pub send_by : Bool → ℕ → Exec (Session fl) (Option Bytes)
    send_by true chunks = send_chunked fl chunks command d
    send_by false chunks = do response ← send fl command d; pure (some response)

    -- The loop; `none` says that the fuel has run out.
    unfoldable pub with_retry : Bool → (chunks fuel attempt : ℕ) → Exec (Session fl) (Option Bytes)
    unfolding on_failure send_by
    with_retry chunked chunks zero attempt = pure none
    with_retry chunked chunks (suc fuel) attempt =
        catch (send_by chunked chunks)
          (λ e. on_failure (suc attempt) (with_retry chunked chunks fuel (suc attempt)) e)
