-- ===== src/Lib.antt =====
-- A Python client of the fq database (fq/), of which this library models the protocol core.
--
-- The client sends commands as frames and reads responses as frames. `Commands` models
-- fq/_commands.py, which writes the payload of a command; `Framing` models fq/_framing.py, which
-- puts a length in front of a payload; `Responses` models fq/_responses.py, which decodes the payload
-- of a response; `Chunked` models fq/_chunked.py, which assembles a response from several frames;
-- `Errors` models fq/errors.py, the exceptions, and `Types` (with `Types.Tls`) fq/types.py, the
-- records and TLS settings. `Sharding` models fq/_sharding.py: routing by key, grouping, and cursors
-- over several shards. `Reconnect` models fq/_reconnect.py: delays between attempts and deadlines.
-- `Inspect` models fq/inspect_types.py: the report types (`Inspect.Report`) and their decoder
-- (`Inspect.Decode`), over the values of JSON (`Inspect.Json`).
-- `Sync` models fq/sync: `Sync.Connection` is fq/sync/connection.py, a connection with its requests,
-- frames and handshake; `Sync.Pool` is fq/sync/pool.py; `Sync.Retry` and `Sync.Client` are
-- fq/sync/client.py, the retries and the commands, which take a connection of the pool, exchange on it
-- and decode the response. `Sync.Stream` is `open_stream` and the loop of `_stream`;
-- `Sync.Client.Streams` has `inspect` and the stream methods, `Sync.Client.Construct` the construction
-- of a client, which fills its pool and reads the role of the server. `Sync.Sharded` is
-- fq/sync/sharded.py: the loops over the shards, for a shard of any type; `Sync.Sharded.Methods` and
-- `Sync.Sharded.Construct` use them for shards that are clients, and `Sync.Sharded.FanOut` is
-- `_fan_out` as a step relation of its threads and its caller.
-- `Aio` models fq/aio in the same parts: `Aio.Connection` reads from the buffer of a StreamReader,
-- `Aio.Pool` hands out connections in tasks, `Aio.Retry` and `Aio.Client` (with `Methods` and
-- `Streams`) are fq/aio/client.py, whose client is made first and opened later, and `Aio.Sharded` is
-- fq/aio/sharded.py, with `_fan_out` in `Aio.Sharded.FanOut`. They share the records of a connection,
-- a pool and a client with `Sync`, since the attributes are the same.
-- A function of the source has the name of its definition; a private helper `_join` is `join_parts`,
-- `_read_only` is `read_only_command`, `_mutating` is `mutating_command`, `_check_values` is
-- `check_values`. A definition's proofs stand in the modules below it.
--
-- `Prelude` passes on the shared names. `Python` models what the code uses of Python: `partition`,
-- `split` and `join` (`Python.Split`), UTF-8 (`Python.Utf8`), decimal numbers and `isdigit`
-- (`Python.Decimal`). A `str` is the list of its code points and `bytes` a list of numbers below 256.
-- The character database that `str.isdigit` consults outside ASCII is a parameter, `CharacterData`.
-- `Exec` holds methods that change a state and may raise; `Floats` the operations on floats, which
-- are a parameter because rounding is not modelled; `World` the clock, the random numbers and a
-- script of network events.
--
-- A function that may raise returns a `Result`. The message texts of exceptions that the client
-- raises on its own are not modelled. Loops over lists are recursions. `Python.Decimal.digits` takes
-- fuel: a number has at most as many digits as its value plus one, which is the fuel it is given.
-- The network is a script of events, one for each call of a socket. How much a failed write has sent is
-- not known: `World` keeps the frames that were, or after a timeout may have been, sent whole apart from
-- those that an OSError has cut off. `_read_exactly` gets as much fuel as bytes are missing, since a
-- chunk is not empty. The loops of `send_chunked`, of `_with_retry` and of a stream get their fuel as an
-- argument, since a server may send chunks, and a policy allow attempts, without end. The walk over the
-- shards has as many rounds as there are shards from its first one on. `Aio.Connection.read_exactly` is
-- the `readexactly` of asyncio, with as many rounds as bytes were asked for, since each wait that ends
-- well brings one or more. A wait for a slot that never comes is marked by `never_returns`, which no
-- handler catches. `json.loads` and the reading of TLS files are parameters, and `STREAM_POLL_INTERVAL`
-- is an argument.
--
-- A function of a pool is a whole call, for a thread that is alone. `Sync.Pool.Steps` has the threads
-- that share a pool, where a call is several steps and `close` may come between them.
--
-- Not modelled: what the caller of a generator does between two of its events; the joins of threads
-- after a stream; a cancellation of a task from outside; tasks that share an asynchronous pool. The name
-- of the server in a TLS handshake and the options of a socket are not part of the model, as they change
-- nothing that the client does after. The package's exports (fq/__init__.py) hold no code, and the tests
-- (tests/) are not part of the program.
pub mod Prelude
pub mod Errors
pub mod Python
pub mod Types
pub mod Framing
pub mod Responses
pub mod Chunked
pub mod Commands
pub mod Sharding
pub mod Exec
pub mod Floats
pub mod World
pub mod Inspect
pub mod Reconnect
pub mod Sync
pub mod Aio
mod Tests
