-- ===== src/Sync/Stream/Polling.antt =====
-- The polled rounds of open_stream of fq/sync/connection.py, where the interval ends inside a frame.
use fq_client_py.Prelude.{ℕ, ◌≡◌, ◌<◌, refl, false, List, [], ◌∷◌, none, some, Bytes, length, arith}
use fq_client_py.Errors.{ok, raise, fq_timeout_error}
use fq_client_py.Floats.{Floats}
use fq_client_py.World.{World, Event, timed_out, received}
use fq_client_py.Reconnect.{Deadline, new_deadline}
use fq_client_py.Sync.Connection.{
  Connection, Session, closed, on_world, require_socket, apply_timeout, read_exactly, read_frame,
}
use fq_client_py.Sync.Stream.{next_frame}

module _ {fl : Floats} where
  open fl use {F}

  -- A state with an open socket that holds no unread bytes, and a script of events.
  abbrev pub reading : Connection fl → World fl → List Event → Session fl
  reading c w es = record { conn = record c { sock = some [] }; world = record w { events = es } }

  read_exactly-timed_out :
      (c : Connection fl) (w : World fl) (b : ℕ) (bytes : Bytes) (es : List Event)
      → length bytes < 3
      → read_exactly fl 4 (reading c w (received (b ∷ bytes) ∷ timed_out ∷ es))
        ≡ (raise fq_timeout_error, reading c w es)
  unfolding read_exactly
  read_exactly-timed_out c w b [] es h = refl
  read_exactly-timed_out c w b (b1 ∷ []) es h = refl
  read_exactly-timed_out c w b (b1 ∷ b2 ∷ []) es h = refl
  read_exactly-timed_out c w b (b1 ∷ b2 ∷ b3 ∷ bytes) es h = absurd (omega arith)

  -- If a polled round of open_stream is given one to three bytes of a header before its interval
  -- ends, it yields None and these bytes are lost: the next round reads what comes after them.
  pub next_frame_drops :
      (interval : F) (d : Deadline fl) (s t : Session fl) (c : Connection fl) (w : World fl) (b : ℕ)
      (bytes : Bytes) (es : List Event)
      → on_world fl (new_deadline fl (some interval)) s ≡ (ok d, t)
      → closed fl t.conn ≡ false
      → apply_timeout fl d t ≡ (ok tt, reading c w (received (b ∷ bytes) ∷ timed_out ∷ es))
      → length bytes < 3
      → next_frame fl (some interval) s ≡ (ok none, reading c w es)
  unfolding next_frame read_frame require_socket
  next_frame_drops interval d s t c w b bytes es e o k h =
      rw (e, o, k, read_exactly-timed_out c w b bytes es h)
