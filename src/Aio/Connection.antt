-- ===== src/Aio/Connection.antt =====
-- fq/aio/connection.py: one asyncio connection to a server, over the scripted network of World.
--
-- Its attributes are those of the synchronous connection; `sock` is the buffer of the StreamReader, if
-- there are a reader and a writer. An event of the script is the outcome of a call that waits: of
-- `open_connection` with its TLS handshake, of `drain`, or of the wait for more bytes. The timeout of
-- `asyncio.timeout` is such an outcome.
pub mod Kept
pub mod Frames
use fq_client_py.Prelude.{
  ℕ, zero, suc, ◌-◌, Bool, true, false, not, List, [], ◌∷◌, ◌++◌, Option, none, some, Bytes, ltb,
  ◌==◌, length, take, drop, if◌then◌else◌,
}
use fq_client_py.Errors.{
  Exn, Result, ok, raise, fq_timeout_error, fq_connection_error, corrupted_response_error,
}
use fq_client_py.Exec.{Exec, pure, throw, lift, catch, ◌>>=◌, ◌>>◌}
use fq_client_py.Python.Decimal.{CharacterData}
use fq_client_py.Types.{protocol_version, default_max_message_size}
use fq_client_py.Framing.{frame_header_size, encode_frame, decode_frame_size, check_request_size}
use fq_client_py.Responses.{HelloInfo, parse_hello}
use fq_client_py.Chunked.{ChunkAssembler, new_assembler, feed}
use fq_client_py.Commands.{Command, hello}
use fq_client_py.Floats.{Floats}
use fq_client_py.World.{World, Event, done, os_error, timed_out, received}
use fq_client_py.Reconnect.{Deadline, new_deadline, remaining, check}
use fq_client_py.Sync.Retry.{is_timeout}
use fq_client_py.Sync.Connection.{
  split_address, Config, Session, on_world, on_conn, conn_get, next, closed, log_sent,
  set_in_flight, negotiated,
}

module _ (fl : Floats) where
  unfoldable pub close : Exec (Session fl) (Unit {0})
  close = on_conn fl (λ c. record c { sock = none })

  -- `_require_writer` and `_require_reader`
  unfoldable pub require_streams : Exec (Session fl) (Unit {0})
  unfolding closed
  require_streams s = if closed fl s.conn then (raise fq_connection_error, s) else (ok tt, s)

  -- `deadline.check()`, and the seconds for `asyncio.timeout`
  unfoldable pub start_timeout : Deadline fl → Exec (Session fl) (Unit {0})
  start_timeout d = do on_world fl (check fl d); left ← on_world fl (remaining fl d); pure tt

  -- The handlers behind `writer.write` and `drain`. `write` has given the frame to the transport before
  -- `drain` waits, and how much of it is out when `drain` fails is not known: the frame counts as sent.
  unfoldable pub drained : Bytes → Event → Exec (Session fl) (Unit {0})
  drained frame done = do log_sent fl frame; set_in_flight fl true
  drained frame timed_out = do log_sent fl frame; set_in_flight fl true; throw fq_timeout_error
  drained frame os_error = do log_sent fl frame; throw fq_connection_error
  drained frame (received _) = do log_sent fl frame; throw fq_connection_error

  unfoldable pub write_request : Command → Deadline fl → Exec (Session fl) (Unit {0})
  unfolding require_streams start_timeout drained
  write_request command d = do
    size ← conn_get fl (λ c. c.max_message_size)
    lift (check_request_size command.payload size)
    require_streams
    start_timeout d
    frame ← lift (encode_frame command.payload)
    outcome ← next fl
    drained frame outcome

  abbrev pub buffer_of : Option Bytes → Bytes
  buffer_of none = []
  buffer_of (some buffer) = buffer

  abbrev pub keep : Bytes → Exec (Session fl) (Unit {0})
  keep buffer = on_conn fl (λ c. record c { sock = some buffer })

  -- The wait for more bytes: what comes is put into the buffer. At the end of the stream
  -- IncompleteReadError takes what is in the buffer.
  unfoldable pub more_bytes : Bytes → Event → Exec (Session fl) Bytes
  more_bytes buffer (received (b ∷ bytes)) = do
    keep (buffer ++ b ∷ bytes)
    pure (buffer ++ b ∷ bytes)
  more_bytes buffer (received []) = do keep []; throw fq_connection_error
  more_bytes buffer timed_out = throw fq_timeout_error
  more_bytes buffer os_error = throw fq_connection_error
  more_bytes buffer done = throw fq_connection_error

  -- `readexactly`: the bytes leave the buffer when all are there. More bytes come in every round, so
  -- `size` rounds are enough.
  unfoldable pub read_from : (fuel size : ℕ) → Bytes → Exec (Session fl) Bytes
  unfolding more_bytes
  read_from zero size buffer = do keep (drop size buffer); pure (take size buffer)
  read_from (suc fuel) size buffer = elim (ltb (length buffer) size) [
    | false ↦ do keep (drop size buffer); pure (take size buffer)
    | true ↦ do outcome ← next fl; buffer' ← more_bytes buffer outcome; read_from fuel size buffer'
  ]

  unfoldable pub read_exactly : ℕ → Exec (Session fl) Bytes
  unfolding read_from
  read_exactly size = do buffer ← conn_get fl (λ c. buffer_of c.sock); read_from size size buffer

  unfoldable pub read_frame : Deadline fl → Exec (Session fl) Bytes
  unfolding require_streams start_timeout read_exactly
  read_frame d = do
    require_streams
    start_timeout d
    header ← read_exactly frame_header_size
    max_size ← conn_get fl (λ c. c.max_message_size)
    size ← lift (decode_frame_size header max_size)
    if size == 0 then pure [] else read_exactly size

  abbrev in_flight : Bool → Exec (Session fl) (Unit {0})
  in_flight b = on_conn fl (λ c. record c { request_in_flight = b })

  unfoldable pub send : Command → Deadline fl → Exec (Session fl) Bytes
  unfolding write_request read_frame
  send command d = do
    write_request command d
    response ← read_frame d
    in_flight false
    pure response

  -- The loop of `send_chunked`; `none` says that the fuel has run out.
  unfoldable pub read_chunks : ℕ → ChunkAssembler → Deadline fl → Exec (Session fl) (Option Bytes)
  unfolding read_frame
  read_chunks zero assembler d = pure none
  read_chunks (suc fuel) assembler d = do
    frame ← read_frame d
    let (fed, assembler') = feed frame assembler
    fed_response ← lift fed
    elim fed_response [
      | none ↦ read_chunks fuel assembler' d
      | some response ↦ do in_flight false; pure (some response)
    ]

  unfoldable pub send_chunked : ℕ → Command → Deadline fl → Exec (Session fl) (Option Bytes)
  unfolding write_request read_chunks
  send_chunked fuel command d = do write_request command d; read_chunks fuel new_assembler d

  unfoldable pub handshake : Config fl → Exec (Session fl) (Unit {0})
  unfolding send
  handshake cfg = do
    command ← lift (hello cfg.token)
    d ← on_world fl (new_deadline fl (some cfg.connect_timeout))
    payload ← send command d
    info ← lift (parse_hello payload)
    if not (info.version == protocol_version) then throw corrupted_response_error else pure tt
    on_conn fl (negotiated fl info)

  -- The handlers behind `open_connection`
  unfoldable pub opened_streams : Event → Exec (Session fl) (Unit {0})
  opened_streams done = pure tt
  opened_streams timed_out = throw fq_timeout_error
  opened_streams os_error = throw fq_connection_error
  opened_streams (received _) = throw fq_connection_error

  unfoldable pub connect : CharacterData → Config fl → Exec (Session fl) (Unit {0})
  unfolding opened_streams handshake close
  connect u cfg = do
    (host, port) ← lift (split_address u cfg.address)
    outcome ← next fl
    opened_streams outcome
    on_conn fl (λ c. record c {
      sock = some [];
      max_message_size = default_max_message_size;
      request_in_flight = false;
    })
    catch (handshake cfg) (λ e. do close; throw e)

  unfoldable pub reconnect : CharacterData → Config fl → Exec (Session fl) (Unit {0})
  unfolding close connect
  reconnect u cfg = do close; connect u cfg

  -- The part of `open_stream` before its loop
  unfoldable pub open_stream : Command → Exec (Session fl) (Unit {0})
  open_stream command = do d ← on_world fl (new_deadline fl none); write_request command d

  abbrev framed : Option fl.F → Exec (Session fl) (Option Bytes)
  framed timeout = do
    d ← on_world fl (new_deadline fl timeout)
    frame ← read_frame d
    pure (some frame)

  -- One round of its loop: a frame, or None where none came within the interval.
  unfoldable pub next_frame : Option fl.F → Exec (Session fl) (Option Bytes)
  unfolding is_timeout
  next_frame none = framed none
  next_frame (some interval) =
      catch (framed (some interval)) (λ e. if is_timeout e then pure none else throw e)
