-- ===== src/Tests/Retries.antt =====
-- The retries of fq/sync/client.py on scripts of a few events.
use fq_client_py.Prelude.{
  false, ◌≤◌, ◌≡◌, refl, ap, sym, ◌∙◌, true, List, [], ◌∷◌, none, some, pos, Bytes, text,
}
use fq_client_py.Errors.{ok, raise, fq_connection_error, is_connection_error}
use fq_client_py.Framing.{encode_frame, check_request_size}
use fq_client_py.Python.Decimal.{str_int, str_isdigit, int_str, is_digit}
use fq_client_py.Python.Split.{join, rpartition}
use fq_client_py.Python.Utf8.{encode}
use fq_client_py.Commands.{delete, hello, read_only_command, join_parts, str_parts}
use fq_client_py.World.{Event, done, os_error, received}
use fq_client_py.Reconnect.{
  ReconnectPolicy, check, delay, ceiling, draw, clamp, remaining, exhausted, new_deadline,
}
use fq_client_py.Sync.Connection.{split_address, send, reconnect}
use fq_client_py.Sync.Retry.{with_retry, plain_send, is_timeout, is_retried}
use fq_client_py.Sync.Retry.Counts.{NotHello, count, sent_count}
use fq_client_py.Sync.Retry.Once.{with_retry_once}
use fq_client_py.Sync.Retry.Attempts.{Answered, with_retry-Answered}
use fq_client_py.Types.{CappingKey}
use fq_client_py.Responses.{parse_bool}
use fq_client_py.Sync.Client.{default, Settings, Client, execute}
use fq_client_py.Sync.Client.Slots.{OpenWith, execute-slots}
use fq_client_py.Tests.Network.{seconds, opened, no_deadline, delete_command, ascii, local, reply_7}

abbrev three_attempts : ReconnectPolicy seconds
three_attempts = record { initial = 1; max_delay = 10; multiplier = 2; max_attempts = some (pos 3) }

abbrev delete_frame : Bytes
delete_frame = 0 ∷ 0 ∷ 0 ∷ 8 ∷ text "DEL a 60"

-- The command is lost before it is sent, and sent again behind a new handshake.
abbrev broken : List Event
broken =
    done
    ∷ os_error
    ∷ done
    ∷ done
    ∷ done
    ∷ done
    ∷ received (0 ∷ 0 ∷ 0 ∷ 22 ∷ text "ok|1;65536;0;readwrite")
    ∷ done
    ∷ done
    ∷ done
    ∷ received reply_7
    ∷ []

-- The server goes away again in the new handshake. The request of the handshake leaves the flag set,
-- so the command, which was never sent, is given up although two more attempts are allowed.
abbrev broken_twice : List Event
broken_twice = done ∷ os_error ∷ done ∷ done ∷ done ∷ done ∷ os_error ∷ done ∷ []

greeting_sent : hello none ≡ ok (record { payload = text "HELLO 1"; read_only = true })
unfolding hello read_only_command join_parts str_parts str_int join encode
greeting_sent = refl

greeting_framed : encode_frame (text "HELLO 1") ≡ ok (0 ∷ 0 ∷ 0 ∷ 7 ∷ text "HELLO 1")
unfolding encode_frame
greeting_framed = refl

delete_frame-NotHello : NotHello delete_frame none
delete_frame-NotHello c h e = absurd (
    cc (
      greeting_framed,
      e,
      ap (λ r. elim r [ ok d ↦ d.payload | raise x ↦ [] ]) (sym h ∙ greeting_sent),
    ))

with_retry_once_example :
    sent_count delete_frame
      (with_retry seconds ascii local three_attempts delete_command no_deadline
        (plain_send seconds)
        4
        0
        (opened [] broken)).1
    ≤ 1
unfolding count
with_retry_once_example =
    with_retry_once delete_frame ascii local three_attempts delete_command no_deadline 4 0
      (opened [] broken) delete_frame-NotHello refl

with_retry-Answered_example : Answered (
    with_retry seconds ascii local three_attempts delete_command no_deadline
      (plain_send seconds)
      4
      0
      (opened [] broken_twice))
with_retry-Answered_example =
    with_retry-Answered ascii local three_attempts delete_command no_deadline 3
      (opened [] broken_twice) refl

gives_up :
    (with_retry seconds ascii local three_attempts delete_command no_deadline
      (plain_send seconds)
      4
      0
      (opened [] broken_twice)).0
    ≡ raise fq_connection_error
unfolding with_retry plain_send check_request_size check delay ceiling draw clamp remaining
    exhausted split_address rpartition str_isdigit int_str is_digit hello read_only_command
    join_parts str_parts str_int join encode new_deadline encode_frame is_connection_error
    is_timeout is_retried send reconnect
gives_up = refl

abbrev pub settings : Settings seconds
settings = record {
  unicode = ascii;
  config = local;
  timeout = none;
  reconnect = three_attempts;
  fuel = 4;
}

abbrev ready : Client seconds
ready = record {
  pool = record { size = 1; slots = some (opened [] broken).conn ∷ []; is_closed = false };
  world = (opened [] broken).world;
}

abbrev pub counter : CappingKey
counter = record { key = text "a"; capping = pos 60 }

execute-slots_example :
    OpenWith 1 (execute seconds settings (delete counter) parse_bool default ready).1
execute-slots_example = execute-slots settings (delete counter) parse_bool default 1 ready refl refl
