-- ===== src/Sync/Connection/Quiet/Calls.antt =====
-- The calls of fq/sync/connection.py that only read, or set a timeout.
use fq_client_py.Prelude.{
  ℕ, zero, suc, ◌≤◌, ◌≡◌, refl, Bool, true, false, List, [], ◌∷◌, ◌++◌, Option, none, some, Bytes,
  ltb, length, ap, ◌==◌, arith, if◌then◌else◌,
}
use fq_client_py.Errors.{Exn, Result, ok, raise, value_error, fq_timeout_error, fq_connection_error}
use fq_client_py.Exec.{Exec, continue, pure, throw, lift, ◌>>=◌}
use fq_client_py.Framing.{frame_header_size, decode_frame_size}
use fq_client_py.Floats.{Floats}
use fq_client_py.World.{World, Event, done, os_error, timed_out, received}
use fq_client_py.Reconnect.{Deadline, clock, remaining, expired, check}
use fq_client_py.Sync.Connection.{
  Session, closed, on_world, conn_get, next_of, next, arrived, recv_of, recv, require_socket,
  expect_done, set_timeout, apply_timeout, chunk_of, read_from, read_exactly, read_frame,
}
use fq_client_py.Sync.Connection.Quiet.{
  Untouched, Quiet, Untouched-refl, Untouched-trans, Quiet-pure, Quiet-throw, Quiet-lift,
  Quiet-conn_get, Quiet-bind, Quiet-if, Quiet-elim,
}

module _ (fl : Floats) where
  open fl use {F, zero_float, sub, less_eq}

  next_of-Untouched :
      (es : List Event) (s : Session fl)
      → length es ≤ length s.world.events
      → Untouched s (next_of fl es s).1
  next_of-Untouched [] s h = Untouched-refl s
  next_of-Untouched (e ∷ es) s h = record {
    flag = refl;
    log = refl;
    cut_log = refl;
    limit = refl;
    open_state = refl;
    fewer = omega arith;
  }

  pub next-Quiet : Quiet (next fl)
  unfolding next
  next-Quiet = record { at = λ s. next_of-Untouched s.world.events s (omega arith) }

  arrived-Untouched :
      (size : ℕ) (e : Event) (s : Session fl)
      → closed fl s.conn ≡ false
      → Untouched s (arrived fl size e s).1
  unfolding closed
  arrived-Untouched size (received bytes) s h = record {
    flag = refl;
    log = refl;
    cut_log = refl;
    limit = refl;
    open_state = cc h;
    fewer = omega arith;
  }
  arrived-Untouched size done s h = Untouched-refl s
  arrived-Untouched size os_error s h = Untouched-refl s
  arrived-Untouched size timed_out s h = Untouched-refl s

  continue-arrived :
      (size : ℕ) (s : Session fl) (r : Result Event × Session fl)
      → Untouched s r.1
      → closed fl s.conn ≡ false
      → Untouched s (continue (arrived fl size) r).1
  continue-arrived size s (ok e, t) h k =
      Untouched-trans _ _ _ h (arrived-Untouched size e t (cc (h.open_state, k)))
  continue-arrived size s (raise e, t) h k = h

  recv_of-Untouched :
      (size : ℕ) (sock : Option Bytes) (s : Session fl)
      → s.conn.sock ≡ sock
      → Untouched s (recv_of fl size sock s).1
  unfolding closed
  recv_of-Untouched size none s h = Untouched-refl s
  recv_of-Untouched size (some []) s h =
      continue-arrived size s (next fl s) (next-Quiet.at s) (rw h)
  recv_of-Untouched size (some (b ∷ bytes)) s h =
      arrived-Untouched size (received (b ∷ bytes)) s (rw h)

  pub recv-Quiet : (size : ℕ) → Quiet (recv fl size)
  unfolding recv
  recv-Quiet size = record { at = λ s. recv_of-Untouched size s.conn.sock s refl }

  pub chunk_of-Quiet : (e : Event) → Quiet (chunk_of fl e)
  unfolding chunk_of
  chunk_of-Quiet (received []) = Quiet-throw _
  chunk_of-Quiet (received (b ∷ bytes)) = Quiet-pure _
  chunk_of-Quiet timed_out = Quiet-throw _
  chunk_of-Quiet done = Quiet-throw _
  chunk_of-Quiet os_error = Quiet-throw _

  pub expect_done-Quiet : (e : Event) → Quiet (expect_done fl e)
  expect_done-Quiet (received bytes) = Quiet-throw _
  expect_done-Quiet done = Quiet-pure _
  expect_done-Quiet os_error = Quiet-throw _
  expect_done-Quiet timed_out = Quiet-throw _

  pub set_timeout-Quiet : (left : Option F) → Quiet (set_timeout fl left)
  unfolding set_timeout
  set_timeout-Quiet none = Quiet-bind _ _ next-Quiet expect_done-Quiet
  set_timeout-Quiet (some left) =
      Quiet-if (fl.less left fl.zero_float) _ _ (Quiet-throw value_error)
        (Quiet-bind _ _ next-Quiet expect_done-Quiet)

  pub on_world-Quiet :
      {A : Type 0} (m : Exec (World fl) A)
      → ((w : World fl)
          → (((m w).1.sent ≡ w.sent) × ((m w).1.cut ≡ w.cut)) × ((m w).1.events ≡ w.events))
      → Quiet (on_world fl m)
  on_world-Quiet m h = record {
    at = λ s. record {
      flag = refl;
      log = (h s.world).0.0;
      cut_log = (h s.world).0.1;
      limit = refl;
      open_state = refl;
      fewer = omega (arith, ap length (h s.world).1);
    };
  }

  remaining-Quiet_of :
      (at : Option F) → Quiet (on_world fl (remaining fl (record { deadline = at })))
  unfolding remaining clock
  remaining-Quiet_of none = on_world-Quiet _ (λ w. ((refl, refl), refl))
  remaining-Quiet_of (some at) = on_world-Quiet _ (λ w. ((refl, refl), refl))

  pub remaining-Quiet : (d : Deadline fl) → Quiet (on_world fl (remaining fl d))
  remaining-Quiet d = remaining-Quiet_of d.deadline

  ends_quietly :
      (over : Bool) (w : World fl)
      → let m = (if over then throw fq_timeout_error else pure {W = World fl} {T = Unit {0}} tt) in
        (((m w).1.sent ≡ w.sent) × ((m w).1.cut ≡ w.cut)) × ((m w).1.events ≡ w.events)
  ends_quietly true w = ((refl, refl), refl)
  ends_quietly false w = ((refl, refl), refl)

  check-Quiet_of : (at : Option F) → Quiet (on_world fl (check fl (record { deadline = at })))
  unfolding check expired remaining clock
  check-Quiet_of none = on_world-Quiet _ (λ w. ((refl, refl), refl))
  check-Quiet_of (some at) = on_world-Quiet _ (λ w.
      ends_quietly (less_eq (sub at (w.time w.reads)) zero_float)
        (record w { reads = suc w.reads }))

  pub check-Quiet : (d : Deadline fl) → Quiet (on_world fl (check fl d))
  check-Quiet d = check-Quiet_of d.deadline

  pub apply_timeout-Quiet : (d : Deadline fl) → Quiet (apply_timeout fl d)
  unfolding apply_timeout
  apply_timeout-Quiet d =
      Quiet-bind _ _ (check-Quiet d) (λ u. Quiet-bind _ _ (remaining-Quiet d) set_timeout-Quiet)

  guarded-Untouched :
      (b : Bool) (e : Exn) (s : Session fl)
      → Untouched s (if◌then◌else◌ {A = Result (Unit {0}) × Session fl} b (raise e, s) (ok tt, s)).1
  guarded-Untouched true e s = Untouched-refl s
  guarded-Untouched false e s = Untouched-refl s

  pub require_socket-Quiet : Quiet (require_socket fl)
  unfolding require_socket
  require_socket-Quiet = record {
    at = λ s. guarded-Untouched (closed fl s.conn) fq_connection_error s;
  }

  read_from-Quiet : (fuel size : ℕ) (buffer : Bytes) → Quiet (read_from fl fuel size buffer)
  unfolding read_from
  read_from-Quiet zero size buffer = Quiet-pure _
  read_from-Quiet (suc fuel) size buffer =
      Quiet-elim (ltb (length buffer) size) _ _
        (Quiet-bind _ _ (recv-Quiet _) λ e.
          Quiet-bind _ _ (chunk_of-Quiet e) λ chunk. read_from-Quiet fuel size (buffer ++ chunk))
        (Quiet-pure buffer)

  pub read_exactly-Quiet : (size : ℕ) → Quiet (read_exactly fl size)
  unfolding read_exactly
  read_exactly-Quiet size = read_from-Quiet size size []

  -- `read_frame` behind the timeout
  pub after_timeout-Quiet : Quiet (do
    header ← read_exactly fl frame_header_size
    max_size ← conn_get fl (λ c. c.max_message_size)
    size ← lift (decode_frame_size header max_size)
    if size == 0 then pure [] else read_exactly fl size)
  after_timeout-Quiet = Quiet-bind _ _ (read_exactly-Quiet 4) λ header.
      Quiet-bind _ _ (Quiet-conn_get _) λ max_size.
        Quiet-bind _ _ (Quiet-lift (decode_frame_size header max_size))
          λ size. Quiet-if (size == 0) _ _ (Quiet-pure []) (read_exactly-Quiet size)

  pub read_frame-Quiet : (d : Deadline fl) → Quiet (read_frame fl d)
  unfolding read_frame
  read_frame-Quiet d =
      Quiet-bind _ _ require_socket-Quiet
        λ open_socket. Quiet-bind _ _ (apply_timeout-Quiet d) λ timeout. after_timeout-Quiet
