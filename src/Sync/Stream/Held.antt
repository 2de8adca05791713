-- ===== src/Sync/Stream/Held.antt =====
-- The connection of a stream of fq/sync/client.py that has ended, and where the pool keeps it.
use fq_client_py.Prelude.{
  ℕ, zero, suc, ◌≡◌, refl, ap, subst, Bool, true, false, inl, inr, [], ◌∷◌, ◌++◌, Option, none,
  some, Bytes, if◌then◌else◌,
}
use fq_client_py.Errors.{Result, ok, raise, fq_connection_error}
use fq_client_py.Exec.{Exec, pure, lift, ◌>>=◌}
use fq_client_py.Exec.Inversion.{bind-eq-ok, ends-cases}
use fq_client_py.Framing.{check_request_size, encode_frame}
use fq_client_py.Commands.{Command}
use fq_client_py.Floats.{Floats}
use fq_client_py.Reconnect.{Deadline, new_deadline}
use fq_client_py.Sync.Connection.{
  Connection, Session, closed, on_world, conn_get, require_socket, write_request, read_frame,
}
use fq_client_py.Sync.Connection.Quiet.{
  Untouched, Quiet, Quiet-end, Quiet-lift, Quiet-conn_get, Quiet-catch, Quiet-pure, Quiet-throw,
  Quiet-bind, Quiet-if, Untouched-refl, Untouched-trans,
}
use fq_client_py.Sync.Connection.Quiet.Calls.{on_world-Quiet, read_frame-Quiet}
use fq_client_py.Sync.Connection.Flight.{Writing, write_request-Writing, after-Writing}
use fq_client_py.Sync.Pool.{Pool, acquire, release}
use fq_client_py.Sync.Retry.{is_timeout}
use fq_client_py.Sync.Stream.{
  Streaming, open_stream, next_frame, on_session, ask, yield_event, read_events, subscribe,
}

module _ {fl : Floats} where
  open fl use {F}

  new_deadline-Quiet : (at : Option F) → Quiet (on_world fl (new_deadline fl at))
  unfolding new_deadline
  new_deadline-Quiet none = on_world-Quiet fl _ (λ w. ((refl, refl), refl))
  new_deadline-Quiet (some x) = on_world-Quiet fl _ (λ w. ((refl, refl), refl))

  open_stream-Writing : (command : Command) → Writing command.payload (open_stream fl command)
  unfolding open_stream
  open_stream-Writing command =
      after-Writing _ _ (new_deadline-Quiet none) λ d s t h. write_request-Writing command d

  -- A part of a method that returns on an open connection only.
  record NeedsOpen (m : Exec (Session fl) (Unit {0})) : Type 0 where
    pub at : (s t : Session fl) → m s ≡ (ok tt, t) → closed fl s.conn ≡ false

  module _ {A : Type 0} (m : Exec (Session fl) A) (f : A → Exec (Session fl) (Unit {0})) where
    NeedsOpen-after : Quiet m → ((a : A) → NeedsOpen (f a)) → NeedsOpen (m >>= f)
    NeedsOpen-after q h = record {
      at = λ s t k.
          let (a, u, k1, k2) = bind-eq-ok f m s k in
          cc ((h a).at u t k2, (Quiet-end m q s u k1).open_state);
    }

  NeedsOpen-first : (m n : Exec (Session fl) (Unit {0})) → NeedsOpen m → NeedsOpen (m >>= λ x. n)
  NeedsOpen-first m n h = record {
    at = λ s t k. let (a, u, k1, k2) = bind-eq-ok (λ x. n) m s k in h.at s u k1;
  }

  abbrev found : Bool → Session fl → Result (Unit {0}) × Session fl
  found b s = if b then (raise fq_connection_error, s) else (ok tt, s)

  found_open : (b : Bool) (s t : Session fl) → found b s ≡ (ok tt, t) → b ≡ false
  found_open true s t h = absurd (cc (ap (λ r. r.0) h))
  found_open false s t h = refl

  require_socket-NeedsOpen : NeedsOpen (require_socket fl)
  unfolding require_socket
  require_socket-NeedsOpen = record { at = λ s t h. found_open (closed fl s.conn) s t h }

  write_request-NeedsOpen :
      (command : Command) (d : Deadline fl) → NeedsOpen (write_request fl command d)
  unfolding write_request
  write_request-NeedsOpen command d =
      NeedsOpen-after {A = ℕ} (conn_get fl (λ c. c.max_message_size)) _ (Quiet-conn_get _) λ size.
        NeedsOpen-after (lift (check_request_size command.payload size)) _ (Quiet-lift _)
          λ x. NeedsOpen-first (require_socket fl) _ require_socket-NeedsOpen

  open_stream-NeedsOpen : (command : Command) → NeedsOpen (open_stream fl command)
  unfolding open_stream
  open_stream-NeedsOpen command =
      NeedsOpen-after _ _ (new_deadline-Quiet none) λ d. write_request-NeedsOpen command d

  frame-Quiet :
      (at : Option F)
      → Quiet (on_world fl (new_deadline fl at) >>= λ d. read_frame fl d >>= λ f. pure (some f))
  frame-Quiet at =
      Quiet-bind _ _ (new_deadline-Quiet at)
        λ d. Quiet-bind _ _ (read_frame-Quiet fl d) λ f. Quiet-pure (some f)

  next_frame-Quiet : (interval : Option F) → Quiet (next_frame fl interval)
  unfolding next_frame
  next_frame-Quiet none = frame-Quiet none
  next_frame-Quiet (some x) =
      Quiet-catch _ _ (frame-Quiet (some x))
        λ e. Quiet-if (is_timeout e) _ _ (Quiet-pure none) (Quiet-throw e)

  -- A part of the generator that leaves its connection untouched, however it ends.
  record Kept {T A : Type 0} (m : Exec (Streaming fl T) A) : Type 0 where
    pub at : (s : Streaming fl T) → Untouched s.session (m s).1.session

  module _ {T A B : Type 0} where
    Kept-bind :
        (m : Exec (Streaming fl T) A) (f : A → Exec (Streaming fl T) B)
        → Kept m
        → ((a : A) → Kept (f a))
        → Kept (m >>= f)
    Kept-bind m f hm hf = record {
      at = λ s. elim (ends-cases (m s)) [
        | inl (a, t, k) ↦ rw k (
            Untouched-trans _ _ _ (subst (λ r. Untouched s.session r.1.session) k (hm.at s))
              ((hf a).at t))
        | inr (e, t, k) ↦ rw k (subst (λ r. Untouched s.session r.1.session) k (hm.at s))
      ];
    }

  module _ {T A : Type 0} where
    Kept-session : (m : Exec (Session fl) A) → Quiet m → Kept {T = T} (on_session fl m)
    Kept-session m h = record { at = λ s. h.at s.session }

    Kept-lift : (r : Result A) → Kept {T = T} (lift r)
    Kept-lift r = record { at = λ s. Untouched-refl s.session }

    Kept-option :
        {B : Type 0} (o : Option B) (m : Exec (Streaming fl T) A) (f : B → Exec (Streaming fl T) A)
        → Kept m
        → ((b : B) → Kept (f b))
        → Kept (elim o [ none ↦ m | some b ↦ f b ])
    Kept-option none m f hm hf = hm
    Kept-option (some b) m f hm hf = hf b

    Kept-if :
        (b : Bool) (m n : Exec (Streaming fl T) A)
        → Kept m
        → Kept n
        → Kept (elim b [ true ↦ m | false ↦ n ])
    Kept-if true m n hm hn = hm
    Kept-if false m n hm hn = hn

  module _ {T : Type 0} where
    Kept-ask : (stop : ℕ → Bool) → Kept {T = T} (ask fl stop)
    Kept-ask stop = record { at = λ s. Untouched-refl s.session }

    Kept-yield : (event : T) → Kept (yield_event fl event)
    Kept-yield event = record { at = λ s. Untouched-refl s.session }

  module _ {T : Type 0} (command : Command) (parse : Bytes → Result T) (interval : Option F)
      (stop : ℕ → Bool) where
    read_events-Kept : (fuel : ℕ) → Kept (read_events fl command parse interval stop fuel)
    unfolding read_events
    read_events-Kept zero = Kept-lift (ok none)
    read_events-Kept (suc fuel) =
        Kept-bind _ _ (Kept-session _ (next_frame-Quiet interval)) λ frame.
          Kept-option frame _ _
            (Kept-bind _ _ (Kept-ask stop)
              λ ended. Kept-if ended _ _ (Kept-lift (ok (some tt))) (read_events-Kept fuel))
            λ payload.
              Kept-bind _ _ (Kept-lift (parse payload))
                λ event. Kept-bind _ _ (Kept-yield event) λ x. read_events-Kept fuel

    -- If the block under `try` returns, whatever came and however often it was asked to stop: the
    -- connection is open, exactly the frame of the command was sent, and its request is in flight.
    pub subscribe-InFlight :
        (fuel : ℕ) (s t : Streaming fl T) (r : Option (Unit {0}))
        → subscribe fl command parse interval stop fuel s ≡ (ok r, t)
        → (t.session.conn.request_in_flight ≡ true)
          × (closed fl t.session.conn ≡ false)
          × (frame : Bytes) × (encode_frame command.payload ≡ ok frame)
          × (t.session.world.sent ≡ s.session.world.sent ++ frame ∷ [])
    unfolding subscribe
    subscribe-InFlight fuel s t r h =
        let (x, u, k1, k2) =
          bind-eq-ok (λ x. read_events fl command parse interval stop fuel)
            (on_session fl (open_stream fl command)) s h in
        let opened : open_stream fl command s.session ≡ (ok tt, u.session) =
          ap (λ y. (y.0, y.1.session)) k1 in
        let wrote = (open_stream-Writing command).returns s.session u.session opened in
        let kept : Untouched u.session t.session =
          subst (λ y. Untouched u.session y.1.session) k2 ((read_events-Kept fuel).at u) in
        (
          cc (kept.flag, wrote.flag),
          cc (
            kept.open_state,
            wrote.open_state,
            (open_stream-NeedsOpen command).at s.session u.session opened,
          ),
          wrote.frame,
          wrote.encoded,
          cc (kept.log, wrote.log),
        )

  module _ {T : Type 0} (command : Command) (parse : Bytes → Result T) (interval : Option F)
      (stop : ℕ → Bool) where
    -- If the block under `try` of a stream returns, and its connection is given back to an open pool,
    -- then the next call of acquire hands out this connection, open and with its request in flight:
    -- the events that the server still sends on it come before any reply.
    pub acquire-subscribe :
        (fuel : ℕ) (s t : Streaming fl T) (r : Option (Unit {0})) (p : Pool (Connection fl))
        (left : Option F) (made : Result (Connection fl))
        → subscribe fl command parse interval stop fuel s ≡ (ok r, t)
        → p.is_closed ≡ false
        → (acquire left made (release (closed fl) t.session.conn p).1 ≡ (ok t.session.conn, p))
          × (t.session.conn.request_in_flight ≡ true)
    unfolding acquire release
    acquire-subscribe fuel s t r p left made h k =
        let ended = subscribe-InFlight command parse interval stop fuel s t r h in
        (rw (k, ended.1), ended.0)
