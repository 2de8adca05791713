-- ===== src/Tests/Streams.antt =====
-- The streams of fq/sync/client.py, and the construction of a client, on scripts of a few events.
use fq_client_py.Prelude.{ℕ, ◌≡◌, refl, List, [], ◌∷◌, none, some, true, false, Bytes, text, arith}
use fq_client_py.Errors.{Result, ok, raise, fq_connection_error}
use fq_client_py.Framing.{encode_frame, check_request_size}
use fq_client_py.Commands.{Command}
use fq_client_py.World.{Event, done, timed_out, received}
use fq_client_py.Reconnect.{check, remaining, new_deadline}
use fq_client_py.Sync.Connection.{
  Connection, Session, on_world, apply_timeout, closed, write_request, read_frame,
}
use fq_client_py.Sync.Pool.{Pool, acquire, release}
use fq_client_py.Sync.Retry.{is_timeout}
use fq_client_py.Sync.Stream.{Streaming, subscribe, next_frame}
use fq_client_py.Sync.Stream.Held.{acquire-subscribe}
use fq_client_py.Sync.Stream.Polling.{reading, next_frame_drops}
use fq_client_py.Tests.Network.{seconds, opened}

abbrev stream_command : Command
stream_command = record { payload = text "STREAM"; read_only = true }

-- Nothing comes within the interval, and then the stream is told to stop.
abbrev quiet : List Event
quiet = done ∷ done ∷ done ∷ timed_out ∷ []

abbrev begun : Streaming seconds Bytes
begun = record { session = opened [] quiet; asked = 0; attempt = 0; yielded = [] }

abbrev whole : Bytes → Result Bytes
whole payload = ok payload

abbrev last : Streaming seconds Bytes
last = (subscribe seconds stream_command whole (some 5) (λ n. true) 1 begun).1

stopped : subscribe seconds stream_command whole (some 5) (λ n. true) 1 begun ≡ (ok (some tt), last)
unfolding subscribe new_deadline check remaining encode_frame check_request_size is_timeout
    write_request read_frame
stopped = refl

abbrev none_out : Pool (Connection seconds)
none_out = record { size = 1; slots = []; is_closed = false }

acquire-subscribe_example :
    (acquire {A = ℕ}
        (some 5)
        (raise fq_connection_error)
        (release (closed seconds) last.session.conn none_out).1
      ≡ (ok last.session.conn, none_out))
    × (last.session.conn.request_in_flight ≡ true)
acquire-subscribe_example =
    acquire-subscribe stream_command whole (some 5) (λ n. true) 1 begun last (some tt) none_out
      (some 5) (raise fq_connection_error) stopped refl

-- Two bytes of a header, the end of the interval, and then the rest of the frame.
abbrev rest : List Event
rest = received (0 ∷ 4 ∷ text "ok|7") ∷ []

abbrev cut : Session seconds
cut = opened [] (done ∷ received (0 ∷ 0 ∷ []) ∷ timed_out ∷ rest)

abbrev waiting : Session seconds
waiting = record cut { world = record cut.world { reads = 1 } }

deadline_made :
    on_world seconds (new_deadline seconds (some 5)) cut
    ≡ (ok (record { deadline = some 5 }), waiting)
unfolding new_deadline
deadline_made = refl

timeout_set : apply_timeout seconds (record { deadline = some 5 }) waiting ≡ (
  ok tt,
  reading cut.conn (record cut.world { reads = 3 }) (received (0 ∷ 0 ∷ []) ∷ timed_out ∷ rest),
)
unfolding apply_timeout check remaining
timeout_set = refl

next_frame_drops_example :
    next_frame seconds (some 5) cut
    ≡ (ok none, reading cut.conn (record cut.world { reads = 3 }) rest)
next_frame_drops_example =
    next_frame_drops 5 (record { deadline = some 5 }) cut waiting cut.conn
      (record cut.world { reads = 3 }) 0 (0 ∷ []) rest deadline_made (unfold closed in refl)
      timeout_set (omega arith)
