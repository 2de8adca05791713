-- ===== src/Tests/Network.antt =====
-- fq/sync/connection.py and fq/_reconnect.py on scripts of a few events. Seconds are whole numbers here.
use fq_client_py.Prelude.{
  ℕ, ◌+◌, ◌-◌, ◌*◌, ◌^◌, ◌≡◌, refl, true, false, List, [], ◌∷◌, ◌++◌, none, some, pos, negsuc,
  Bytes, text, ltb, leb, arith, if◌then◌else◌,
}
use fq_client_py.Errors.{ok, raise, fq_timeout_error}
use fq_client_py.Python.Decimal.{CharacterData, is_digit}
use fq_client_py.Framing.{encode_frame, check_request_size, decode_frame_size}
use fq_client_py.Commands.{Command}
use fq_client_py.Floats.{Floats}
use fq_client_py.World.{World, Event, done, timed_out, received}
use fq_client_py.Reconnect.{Deadline, check, remaining}
use fq_client_py.Sync.Connection.{
  Config, Session, new_connection, send, send_chunked, reconnect, read_exactly, apply_timeout,
  read_frame,
}
use fq_client_py.Sync.Connection.Delivery.{Holds}
use fq_client_py.Sync.Connection.Delivery.Frames.{read_frame-Reads}
use fq_client_py.Sync.Connection.Flight.Ends.{
  Ended, ChunkedEnded, send-Ended, send_chunked-ChunkedEnded,
}
use fq_client_py.Sync.Connection.Opening.{Reopened, reconnect-Reopened}

-- Whole seconds; a negative power counts as 1.
abbrev pub seconds : Floats
seconds = record {
  F = ℕ;
  zero_float = 0;
  add = λ a b. a + b;
  sub = λ a b. a - b;
  mul = λ a b. a * b;
  less = ltb;
  less_eq = leb;
  power = λ a n. elim n [ pos k ↦ ok (a ^ k) | negsuc k ↦ ok 1 ];
}

abbrev pub world_of : List Event → World seconds
world_of es = record {
  time = λ n. n;
  reads = 0;
  random = λ n. 0;
  draws = 0;
  events = es;
  sent = [];
  cut = [];
  slept = [];
}

abbrev pub opened : Bytes → List Event → Session seconds
opened unread es = record {
  conn = record (new_connection seconds) { sock = some unread };
  world = world_of es;
}

abbrev pub no_deadline : Deadline seconds
no_deadline = record { deadline = none }

abbrev get_command : Command
get_command = record { payload = text "GET a 60"; read_only = true }

abbrev pub delete_command : Command
delete_command = record { payload = text "DEL a 60"; read_only = false }

abbrev pub reply_7 : Bytes
reply_7 = 0 ∷ 0 ∷ 0 ∷ 4 ∷ text "ok|7"

-- A header that arrives in two parts, a body with the first of them.
abbrev parts : List Event
parts = done ∷ done ∷ done ∷ received (0 ∷ 0 ∷ []) ∷ received (0 ∷ 4 ∷ text "ok|7") ∷ []

sent_and_read : (send seconds get_command no_deadline (opened [] parts)).0 ≡ ok (text "ok|7")
unfolding send encode_frame check_request_size check decode_frame_size
sent_and_read = refl

-- The reply comes after the first command has given up, and is taken for the reply to the next one.
abbrev late : List Event
late = done ∷ done ∷ done ∷ timed_out ∷ done ∷ done ∷ done ∷ received reply_7 ∷ []

first_times_out : (send seconds get_command no_deadline (opened [] late)).0 ≡ raise fq_timeout_error
unfolding send encode_frame check_request_size check decode_frame_size
first_times_out = refl

next_reads_it :
    (send seconds delete_command no_deadline
      (send seconds get_command no_deadline (opened [] late)).1).0
    ≡ ok (text "ok|7")
unfolding send encode_frame check_request_size check decode_frame_size
next_reads_it = refl

send-Ended_example :
    Ended
      (text "GET a 60")
      (opened [] parts)
      (send seconds get_command no_deadline (opened [] parts))
send-Ended_example = send-Ended get_command no_deadline (opened [] parts)

send_chunked-ChunkedEnded_example :
    ChunkedEnded 3
      (text "GET a 60")
      (opened [] parts)
      (send_chunked seconds 3 get_command no_deadline (opened [] parts))
send_chunked-ChunkedEnded_example =
    send_chunked-ChunkedEnded 3 get_command no_deadline (opened [] parts)

abbrev halves : List Event
halves = received (text "cd") ∷ received (text "ef") ∷ []

abbrev halves_read : Session seconds
halves_read = record (opened (text "f") []) { world = world_of [] }

five_read : read_exactly seconds 5 (opened (text "ab") halves) ≡ (ok (text "abcde"), halves_read)
unfolding read_exactly
five_read = refl

abbrev arriving : List Event
arriving = received (0 ∷ 0 ∷ []) ∷ received (0 ∷ 4 ∷ text "ok|7" ++ 0 ∷ []) ∷ []

reply_encoded : encode_frame (text "ok|7") ≡ ok reply_7
unfolding encode_frame
reply_encoded = refl

timeout_set :
    apply_timeout seconds no_deadline (opened [] (done ∷ arriving)) ≡ (ok tt, opened [] arriving)
unfolding apply_timeout check remaining
timeout_set = refl

read_frame-Reads_example :
    (t : Session seconds) × (read_frame seconds no_deadline (opened [] (done ∷ arriving))
      ≡ (ok (text "ok|7"), t))
    × Holds (0 ∷ []) [] t
read_frame-Reads_example =
    read_frame-Reads (text "ok|7") reply_7 (0 ∷ []) [] no_deadline (opened [] (done ∷ arriving))
      (opened [] arriving) (omega arith) (omega arith) reply_encoded timeout_set
      (record {
        unread = [];
        chunks = (0 ∷ 0 ∷ []) ∷ (0 ∷ 4 ∷ text "ok|7" ++ 0 ∷ []) ∷ [];
        nonempty = (omega arith, (omega arith, tt));
        sock = refl;
        events = refl;
        content = refl;
      })

abbrev pub ascii : CharacterData
ascii = record {
  digit = is_digit;
  decimal_value = λ c. if is_digit c then some (c - b'0') else none;
}

abbrev pub local : Config seconds
local = record {
  address = text "localhost:6380";
  token = none;
  has_ssl_context = false;
  connect_timeout = 5;
}

abbrev pub greeting : List Event
greeting =
    done ∷ done ∷ done ∷ done ∷ received (0 ∷ 0 ∷ 0 ∷ 22 ∷ text "ok|1;65536;0;readwrite") ∷ []

reconnect-Reopened_example : Reopened (reconnect seconds ascii local (opened [] greeting))
reconnect-Reopened_example = reconnect-Reopened ascii local (opened [] greeting)
