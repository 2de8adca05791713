-- ===== src/Tests/Asyncio.antt =====
-- fq/aio on scripts of a few events.
use fq_client_py.Prelude.{ℕ, ◌≡◌, refl, true, false, List, [], ◌∷◌, none, some, Bytes, text}
use fq_client_py.Errors.{Result, ok, raise, value_error, fq_connection_error, pool_closed_error}
use fq_client_py.Types.{summary}
use fq_client_py.Responses.{parse_bool}
use fq_client_py.Commands.{delete}
use fq_client_py.World.{Event, timed_out, received}
use fq_client_py.Inspect.Json.{Json}
use fq_client_py.Sync.Client.{Client, default}
use fq_client_py.Sync.Client.Slots.{OpenWith}
use fq_client_py.Aio.Connection.{read_exactly}
use fq_client_py.Aio.Connection.{read_frame, require_streams, start_timeout}
use fq_client_py.Aio.Connection.Kept.{to_read}
use fq_client_py.Aio.Connection.Frames.{Framed, read_frame-Framed}
use fq_client_py.Framing.{decode_frame_size}
use fq_client_py.Reconnect.{check, remaining}
use fq_client_py.Aio.Connection.{connect}
use fq_client_py.Python.Split.{rpartition}
use fq_client_py.Python.Decimal.{str_isdigit, is_digit, int_str}
use fq_client_py.Sync.Connection.{split_address, next}
use fq_client_py.Aio.Pool.{prefill}
use fq_client_py.Aio.Client.{AsyncClient, execute, inspect, open_client, aclose_client, factory}
use fq_client_py.Aio.Client.Opening.{reopened, HasRaised, open_client-HasRaised}
use fq_client_py.Aio.Client.Closing.{open_client-aclose_client}
use fq_client_py.Aio.Client.Slots.{commands-OpenWith}
use fq_client_py.Aio.Sharded.{AsyncShard, open_shards}
use fq_client_py.Aio.Sharded.Opening.{Settled, open_shards-Settled}
use fq_client_py.Sync.Sharded.FanOut.{FanOut, event, error, put_by, take_by, Run, fan_out}
use fq_client_py.Aio.Sharded.FanOut.{
  TaskRun, turns, idles, puts_event, puts_error, gets, put_event, Same, TaskRun-Run,
}
use fq_client_py.Tests.Sharded.{streams}
use fq_client_py.Tests.Network.{seconds, no_deadline, opened, world_of, delete_command}
use fq_client_py.Tests.Retries.{settings, counter}

-- Two bytes of a header, and then a timeout; the other bytes come later.
abbrev late : List Event
late = received (0 ∷ 0 ∷ []) ∷ timed_out ∷ received (0 ∷ 4 ∷ text "ok|7") ∷ []

read_frame-Framed_example :
    Framed (0 ∷ 0 ∷ 0 ∷ 4 ∷ text "ok|7") (read_frame seconds no_deadline (opened [] late))
read_frame-Framed_example = read_frame-Framed no_deadline (opened [] late) [] refl

-- A header, and then a timeout: the header is lost.
header_lost :
    to_read
      (read_frame seconds no_deadline
        (opened [] (received (0 ∷ 0 ∷ 0 ∷ 4 ∷ []) ∷ timed_out ∷ received (text "ok|7") ∷ []))).1
    ≡ text "ok|7"
unfolding read_frame require_streams start_timeout check remaining read_exactly decode_frame_size
    next
header_lost = refl

-- A client with two slots, whose network gives nothing at first.
abbrev unopened : AsyncClient seconds settings
unopened = record {
  client = record {
    pool = record { size = 2; slots = none ∷ none ∷ []; is_closed = false };
    world = world_of [];
  };
  is_opened = false;
  server_role = [];
  auth_required = false;
}

refused : HasRaised settings (prefill seconds (factory seconds settings) unopened.client)
unfolding prefill factory connect split_address rpartition str_isdigit is_digit int_str next
refused = tt

open_client-HasRaised_example :
    HasRaised settings (open_client seconds settings (reopened settings 3 unopened))
open_client-HasRaised_example = open_client-HasRaised settings unopened 3 refl refl refused

-- A client with one connection.
abbrev client : Client seconds
client = record {
  pool = record { size = 1; slots = some (opened [] late).conn ∷ []; is_closed = false };
  world = (opened [] late).world;
}

abbrev in_use : AsyncClient seconds settings
in_use = record {
  client = client;
  is_opened = true;
  server_role = text "admin";
  auth_required = false;
}

open_client-aclose_client_example :
    (open_client seconds settings (aclose_client seconds settings in_use)
      ≡ (ok tt, aclose_client seconds settings in_use))
    × ((execute seconds settings
          (ok delete_command)
          parse_bool
          default
          (open_client seconds settings (aclose_client seconds settings in_use)).1.client).0
        ≡ raise pool_closed_error)
open_client-aclose_client_example =
    open_client-aclose_client settings in_use delete_command parse_bool default refl

abbrev no_document : Bytes → Result (Json seconds)
no_document payload = raise value_error

commands-OpenWith_example :
    OpenWith 1 (execute seconds settings (delete counter) parse_bool default client).1
    × OpenWith 1 (inspect seconds settings no_document summary default client).1
commands-OpenWith_example =
    commands-OpenWith settings (delete counter) parse_bool no_document summary default 1 client refl
      refl

-- The first shard is open already, and the second one cannot be reached.
abbrev two_shards : List (AsyncShard seconds)
two_shards =
    record { settings = settings; client = in_use }
    ∷ record { settings = settings; client = unopened }
    ∷ []

open_shards-Settled_example : Settled (open_shards seconds two_shards)
open_shards-Settled_example = open_shards-Settled two_shards

-- The tasks of two shards: the first gives an event, and the second fails.
abbrev both_put : FanOut ℕ
both_put = put_by 1 (error fq_connection_error) [] (put_event 0 7 (event 8 ∷ []) (fan_out streams))

abbrev one_yielded : FanOut ℕ
one_yielded = take_by (0, event 7) ((1, error fq_connection_error) ∷ []) both_put

tasks : TaskRun (fan_out streams) one_yielded
tasks = turns (puts_event 0 7 (event 8 ∷ []) refl) (
    turns (puts_error 1 fq_connection_error [] refl)
      (turns (gets (0, event 7) ((1, error fq_connection_error) ∷ []) refl refl) idles))

TaskRun-Run_example : (u : FanOut ℕ) × Run (fan_out streams) u × Same u one_yielded
TaskRun-Run_example = TaskRun-Run tasks
