-- ===== src/Sync/Connection.antt =====
-- fq/sync/connection.py: one connection to a server, over the scripted network of World.
--
-- An open socket is the bytes that it received and was not yet asked for. Each call of a socket takes
-- one event of the script, except a `recv` that finds such bytes. Of the TLS context the model keeps
-- whether there is one. Closing a socket is taken to succeed: the source ignores that it fails.
pub mod Fuel
pub mod Lengths
pub mod Delivery
pub mod Opening
pub mod Quiet
pub mod Flight
use fq_client_py.Prelude.{
  ℕ, zero, suc, ◌+◌, ◌-◌, Bool, true, false, not, ◌||◌, List, [], ◌∷◌, ◌++◌, Option, none, some,
  Str, Bytes, ltb, ◌==◌, length, take, drop, if◌then◌else◌,
}
use fq_client_py.Errors.{
  Exn, Result, ok, raise, value_error, fq_timeout_error, fq_connection_error,
  corrupted_response_error,
}
use fq_client_py.Exec.{Exec, pure, throw, lift, catch, ◌>>=◌, ◌>>◌}
use fq_client_py.Python.Split.{rpartition}
use fq_client_py.Python.Decimal.{CharacterData, str_isdigit, int_str}
use fq_client_py.Types.{protocol_version, default_max_message_size}
use fq_client_py.Framing.{frame_header_size, encode_frame, decode_frame_size, check_request_size}
use fq_client_py.Responses.{HelloInfo, parse_hello}
use fq_client_py.Chunked.{ChunkAssembler, new_assembler, feed}
use fq_client_py.Commands.{Command, hello}
use fq_client_py.Floats.{Floats}
use fq_client_py.World.{World, Event, done, os_error, timed_out, received}
use fq_client_py.Reconnect.{Deadline, new_deadline, remaining, check}

-- The test behind `rpartition`, and the port.
unfoldable pub address_parts : CharacterData → Str × Str × Str → Result (Str × ℕ)
address_parts u (host, [], port) = raise value_error
address_parts u (host, _ ∷ _, port) =
    if not (str_isdigit u port)
    then raise value_error
    else elim (int_str u port) [ ok n ↦ ok (host, n) | raise e ↦ raise e ]

unfoldable pub split_address : CharacterData → Str → Result (Str × ℕ)
unfolding address_parts
split_address u address = address_parts u (rpartition b':' address)

module _ (fl : Floats) where
  open fl use {F, zero_float, less}

  -- What `__init__` is given and never changes.
  pub record Config : Type 0 where
    pub address : Str
    pub token : Option Str
    pub has_ssl_context : Bool
    pub connect_timeout : F

  pub record Connection : Type 0 where
    pub sock : Option Bytes
    pub max_message_size : ℕ
    pub role : Str
    pub auth_required : Bool
    pub request_in_flight : Bool

  abbrev pub new_connection : Connection
  new_connection = record {
    sock = none;
    max_message_size = default_max_message_size;
    role = [];
    auth_required = false;
    request_in_flight = false;
  }

  -- The state of a method: the connection, and what is outside the client.
  pub record Session : Type 0 where
    pub conn : Connection
    pub world : World fl

  abbrev pub on_world : {A : Type 0} → Exec (World fl) A → Exec Session A
  on_world m s = let (r, w) = m s.world in (r, record s { world = w })

  abbrev pub on_conn : (Connection → Connection) → Exec Session (Unit {0})
  on_conn f s = (ok tt, record s { conn = f s.conn })

  abbrev pub conn_get : {A : Type 0} → (Connection → A) → Exec Session A
  conn_get f s = (ok (f s.conn), s)

  -- The outcome of a call of a socket; the end of the script is an OSError.
  abbrev pub next_of : List Event → Session → Result Event × Session
  next_of [] s = (ok os_error, s)
  next_of (e ∷ es) s = (ok e, record s { world = record s.world { events = es } })

  unfoldable pub next : Exec Session Event
  next s = next_of s.world.events s

  -- `sock.recv(size)`: what is left of the bytes stays with the socket.
  abbrev pub arrived : ℕ → Event → Exec Session Event
  arrived size (received bytes) s = (
    ok (received (take size bytes)),
    record s { conn = record s.conn { sock = some (drop size bytes) } },
  )
  arrived size done s = (ok done, s)
  arrived size os_error s = (ok os_error, s)
  arrived size timed_out s = (ok timed_out, s)

  abbrev pub recv_of : ℕ → Option Bytes → Exec Session Event
  recv_of size none s = (ok os_error, s)
  recv_of size (some []) s = (next >>= arrived size) s
  recv_of size (some (b ∷ bytes)) s = arrived size (received (b ∷ bytes)) s

  unfoldable pub recv : ℕ → Exec Session Event
  unfolding next
  recv size s = recv_of size s.conn.sock s

  unfoldable pub closed : Connection → Bool
  closed c = elim c.sock [ none ↦ true | some _ ↦ false ]

  unfoldable pub close : Exec Session (Unit {0})
  close = on_conn (λ c. record c { sock = none })

  unfoldable pub require_socket : Exec Session (Unit {0})
  unfolding closed
  require_socket s = if closed s.conn then (raise fq_connection_error, s) else (ok tt, s)

  -- An outcome of a call where `except OSError` is the one handler.
  abbrev pub expect_done : Event → Exec Session (Unit {0})
  expect_done done = pure tt
  expect_done os_error = throw fq_connection_error
  expect_done timed_out = throw fq_connection_error
  expect_done (received _) = throw fq_connection_error

  -- `sock.settimeout(seconds)` refuses a negative number with a ValueError.
  unfoldable pub set_timeout : Option F → Exec Session (Unit {0})
  unfolding next
  set_timeout none = next >>= expect_done
  set_timeout (some left) =
      if less left zero_float then throw value_error else (next >>= expect_done)

  unfoldable pub apply_timeout : Deadline fl → Exec Session (Unit {0})
  unfolding set_timeout
  apply_timeout d = do on_world (check fl d); left ← on_world (remaining fl d); set_timeout left

  abbrev pub set_in_flight : Bool → Exec Session (Unit {0})
  set_in_flight b = on_conn (λ c. record c { request_in_flight = b })

  abbrev pub log_sent : Bytes → Exec Session (Unit {0})
  log_sent frame s =
      (ok tt, record s { world = record s.world { sent = s.world.sent ++ frame ∷ [] } })

  abbrev pub log_cut : Bytes → Exec Session (Unit {0})
  log_cut frame s = (ok tt, record s { world = record s.world { cut = s.world.cut ++ frame ∷ [] } })

  -- The handlers behind `sendall`. How much a call that fails has sent is not known: after a timeout the
  -- frame counts as sent. After another OSError it counts as cut off: `sendall` raises one only where
  -- bytes are left that it could not write, so a part of the frame may be out, and not the whole.
  unfoldable pub written : Bytes → Event → Exec Session (Unit {0})
  written frame done = do log_sent frame; set_in_flight true
  written frame timed_out = do log_sent frame; set_in_flight true; throw fq_timeout_error
  written frame os_error = do log_cut frame; throw fq_connection_error
  written frame (received _) = do log_cut frame; throw fq_connection_error

  unfoldable pub write_request : Command → Deadline fl → Exec Session (Unit {0})
  unfolding require_socket apply_timeout next written
  write_request command d = do
    size ← conn_get (λ c. c.max_message_size)
    lift (check_request_size command.payload size)
    require_socket
    apply_timeout d
    frame ← lift (encode_frame command.payload)
    outcome ← next
    written frame outcome

  -- The handlers behind `recv`, and the test for the end of the stream.
  unfoldable pub chunk_of : Event → Exec Session Bytes
  chunk_of (received []) = throw fq_connection_error
  chunk_of (received (b ∷ bytes)) = pure (b ∷ bytes)
  chunk_of timed_out = throw fq_timeout_error
  chunk_of done = throw fq_connection_error
  chunk_of os_error = throw fq_connection_error

  -- The loop. A chunk is not empty, so `size` rounds are enough.
  unfoldable pub read_from : (fuel size : ℕ) → Bytes → Exec Session Bytes
  unfolding recv chunk_of
  read_from zero size buffer = pure buffer
  read_from (suc fuel) size buffer = elim (ltb (length buffer) size) [
    | false ↦ pure buffer
    | true ↦ do
      outcome ← recv (size - length buffer)
      chunk ← chunk_of outcome
      read_from fuel size (buffer ++ chunk)
  ]

  unfoldable pub read_exactly : ℕ → Exec Session Bytes
  unfolding read_from
  read_exactly size = read_from size size []

  unfoldable pub read_frame : Deadline fl → Exec Session Bytes
  unfolding require_socket apply_timeout read_exactly
  read_frame d = do
    require_socket
    apply_timeout d
    header ← read_exactly frame_header_size
    max_size ← conn_get (λ c. c.max_message_size)
    size ← lift (decode_frame_size header max_size)
    if size == 0 then pure [] else read_exactly size

  unfoldable pub send : Command → Deadline fl → Exec Session Bytes
  unfolding write_request read_frame
  send command d = do
    write_request command d
    response ← read_frame d
    set_in_flight false
    pure response

  -- The loop of `send_chunked`; `none` says that the fuel has run out.
  unfoldable pub read_chunks : ℕ → ChunkAssembler → Deadline fl → Exec Session (Option Bytes)
  unfolding read_frame
  read_chunks zero assembler d = pure none
  read_chunks (suc fuel) assembler d = do
    frame ← read_frame d
    let (fed, assembler') = feed frame assembler
    fed_response ← lift fed
    elim fed_response [
      | none ↦ read_chunks fuel assembler' d
      | some response ↦ do set_in_flight false; pure (some response)
    ]

  -- With a number of rounds: a server may send chunks without end.
  unfoldable pub send_chunked : ℕ → Command → Deadline fl → Exec Session (Option Bytes)
  unfolding write_request read_chunks
  send_chunked fuel command d = do write_request command d; read_chunks fuel new_assembler d

  abbrev pub negotiated : HelloInfo → Connection → Connection
  negotiated info c = record c {
    max_message_size = info.max_message_size;
    auth_required = info.auth_required;
    role = info.role;
  }

  unfoldable pub handshake : Config → Exec Session (Unit {0})
  unfolding send
  handshake cfg = do
    command ← lift (hello cfg.token)
    d ← on_world (new_deadline fl (some cfg.connect_timeout))
    response ← send command d
    info ← lift (parse_hello response)
    if not (info.version == protocol_version) then throw corrupted_response_error else pure tt
    on_conn (negotiated info)

  -- `sock.close()` on the socket that is not yet the connection's, for a failed TLS handshake
  abbrev pub wrap_socket : Bool → Exec Session (Unit {0})
  wrap_socket false = pure tt
  wrap_socket true = do outcome ← next; expect_done outcome

  unfoldable pub connect : CharacterData → Config → Exec Session (Unit {0})
  unfolding next handshake close
  connect u cfg = do
    (host, port) ← lift (split_address u cfg.address)
    outcome ← next
    expect_done outcome
    wrap_socket cfg.has_ssl_context
    on_conn (λ c. record c {
      sock = some [];
      max_message_size = default_max_message_size;
      request_in_flight = false;
    })
    catch (handshake cfg) (λ e. do close; throw e)

  unfoldable pub reconnect : CharacterData → Config → Exec Session (Unit {0})
  unfolding close connect
  reconnect u cfg = do close; connect u cfg
