-- ===== src/Sync/Connection/Flight.antt =====
-- The flag `request_in_flight` and the log of what was sent, over a whole exchange: the retries of
-- fq/sync/client.py rest on them.
pub mod Exchange
pub mod Ends
use fq_client_py.Prelude.{
  ℕ, ◌≤◌, length, arith, ◌≡◌, refl, ap, sym, ◌∙◌, inl, inr, ◌⊎◌, Bool, true, false, List, [], ◌∷◌,
  ◌++◌, Option, none, some, Bytes,
}
use fq_client_py.Errors.{Exn, Result, ok, raise}
use fq_client_py.Exec.{Exec, lift, ◌>>=◌}
use fq_client_py.Exec.Inversion.{bind-eq-ok, bind-eq-raise, ends-cases}
use fq_client_py.Framing.{check_request_size, encode_frame}
use fq_client_py.Commands.{Command}
use fq_client_py.Floats.{Floats}
use fq_client_py.World.{Event, done, os_error, timed_out, received}
use fq_client_py.Reconnect.{Deadline}
use fq_client_py.Sync.Connection.{
  Session, closed, conn_get, next, written, write_request, read_frame, read_chunks, send,
  send_chunked,
}
use fq_client_py.Sync.Connection.Quiet.{Untouched, Quiet, Quiet-end, Quiet-lift, Quiet-conn_get}
use fq_client_py.Sync.Connection.Quiet.Calls.{
  next-Quiet, apply_timeout-Quiet, require_socket-Quiet, read_frame-Quiet,
}

module _ {fl : Floats} where
  -- From one state to another that wrote the frame of a payload and marked it.
  pub record Wrote (payload : Bytes) (s t : Session fl) : Type 0 where
    pub flag : t.conn.request_in_flight ≡ true
    pub frame : Bytes
    pub encoded : encode_frame payload ≡ ok frame
    pub log : t.world.sent ≡ s.world.sent ++ frame ∷ []
    pub cut_log : t.world.cut ≡ s.world.cut
    pub fewer : length t.world.events ≤ length s.world.events
    pub open_state : closed fl t.conn ≡ closed fl s.conn

  -- From one state to another that wrote the frame of a payload or nothing.
  abbrev pub Grew : Bytes → Session fl → Session fl → Type 0
  Grew payload s t =
      (t.world.sent ≡ s.world.sent)
      ⊎ ((frame : Bytes) × (encode_frame payload ≡ ok frame)
          × (t.world.sent ≡ s.world.sent ++ frame ∷ []))

  -- From one state to another in which no frame was cut off; or the frame of a payload was, and none was
  -- sent whole.
  abbrev pub Cut : Bytes → Session fl → Session fl → Type 0
  Cut payload s t =
      (t.world.cut ≡ s.world.cut)
      ⊎ ((t.world.sent ≡ s.world.sent)
          × (frame : Bytes) × (encode_frame payload ≡ ok frame)
          × (t.world.cut ≡ s.world.cut ++ frame ∷ []))

  -- `m` returns only with the frame written, and a raise without a mark has written nothing.
  pub record Writing (payload : Bytes) (m : Exec (Session fl) (Unit {0})) : Type 0 where
    pub returns : (s t : Session fl) → m s ≡ (ok tt, t) → Wrote payload s t
    pub raises :
        (s t : Session fl) (e : Exn)
        → m s ≡ (raise e, t)
        → t.conn.request_in_flight ≡ false
        → t.world.sent ≡ s.world.sent
    pub open_state : (s : Session fl) → closed fl (m s).1.conn ≡ closed fl s.conn
    pub adds : (s : Session fl) → Grew payload s (m s).1
    pub cuts : (s : Session fl) → Cut payload s (m s).1

  written-Writing :
      (payload frame : Bytes) (outcome : Event)
      → encode_frame payload ≡ ok frame
      → Writing payload (written fl frame outcome)
  unfolding written closed
  written-Writing payload frame done h = record {
    returns = λ s t k. record {
      flag = ap (λ r. r.1.conn.request_in_flight) (sym k);
      frame = frame;
      encoded = h;
      log = ap (λ r. r.1.world.sent) (sym k);
      cut_log = ap (λ r. r.1.world.cut) (sym k);
      fewer = omega (arith, ap (λ r. length r.1.world.events) k);
      open_state = ap (λ r. closed fl r.1.conn) (sym k);
    };
    raises = λ s t e k f. absurd (cc (ap (λ r. r.0) k));
    open_state = λ s. refl;
    adds = λ s. inr (frame, h, refl);
    cuts = λ s. inl refl;
  }
  written-Writing payload frame os_error h = record {
    returns = λ s t k. absurd (cc (ap (λ r. r.0) k));
    raises = λ s t e k f. ap (λ r. r.1.world.sent) (sym k);
    open_state = λ s. refl;
    adds = λ s. inl refl;
    cuts = λ s. inr (refl, frame, h, refl);
  }
  written-Writing payload frame timed_out h = record {
    returns = λ s t k. absurd (cc (ap (λ r. r.0) k));
    raises = λ s t e k f. absurd (cc (ap (λ r. r.1.conn.request_in_flight) k, f));
    open_state = λ s. refl;
    adds = λ s. inr (frame, h, refl);
    cuts = λ s. inl refl;
  }
  written-Writing payload frame (received bytes) h = record {
    returns = λ s t k. absurd (cc (ap (λ r. r.0) k));
    raises = λ s t e k f. ap (λ r. r.1.world.sent) (sym k);
    open_state = λ s. refl;
    adds = λ s. inl refl;
    cuts = λ s. inr (refl, frame, h, refl);
  }

  module _ {A : Type 0} {payload : Bytes} (m : Exec (Session fl) A)
      (f : A → Exec (Session fl) (Unit {0})) (hm : Quiet m)
      (hf : (a : A) (s t : Session fl) → m s ≡ (ok a, t) → Writing payload (f a)) where
    after-returns : (s t : Session fl) → (m >>= f) s ≡ (ok tt, t) → Wrote payload s t
    after-returns s t k =
        let (a, u, k1, k2) = bind-eq-ok f m s k in
        let w = (hf a s u k1).returns u t k2 in
        let q = Quiet-end m hm s u k1 in
        record {
          flag = w.flag;
          frame = w.frame;
          encoded = w.encoded;
          log = cc (w.log, q.log);
          cut_log = cc (w.cut_log, q.cut_log);
          fewer = omega (arith, w.fewer, q.fewer);
          open_state = cc (w.open_state, q.open_state);
        }

    after-raises :
        (s t : Session fl) (e : Exn)
        → (m >>= f) s ≡ (raise e, t)
        → t.conn.request_in_flight ≡ false
        → t.world.sent ≡ s.world.sent
    after-raises s t e k flag = elim (bind-eq-raise f m s k) [
      | inl k1 ↦ (Quiet-end m hm s t k1).log
      | inr (a, u, k1, k2) ↦ cc ((hf a s u k1).raises u t e k2 flag, (Quiet-end m hm s u k1).log)
    ]

    after-open_state : (s : Session fl) → closed fl ((m >>= f) s).1.conn ≡ closed fl s.conn
    after-open_state s = elim (ends-cases (m s)) [
      | inl (a, t, k) ↦ rw k (cc ((hf a s t k).open_state t, (Quiet-end m hm s t k).open_state))
      | inr (e, t, k) ↦ rw k (Quiet-end m hm s t k).open_state
    ]

    later-Grew :
        (s t u : Session fl) → t.world.sent ≡ s.world.sent → Grew payload t u → Grew payload s u
    later-Grew s t u same (inl h) = inl (cc (h, same))
    later-Grew s t u same (inr (frame, encoded, log)) = inr (frame, encoded, cc (log, same))

    after-Grew : (s : Session fl) → Grew payload s ((m >>= f) s).1
    after-Grew s = elim (ends-cases (m s)) [
      | inl (a, t, k) ↦
          rw k (later-Grew s t (f a t).1 (Quiet-end m hm s t k).log ((hf a s t k).adds t))
      | inr (e, t, k) ↦ rw k (inl (Quiet-end m hm s t k).log)
    ]

    later-Cut :
        (s t u : Session fl)
        → t.world.sent ≡ s.world.sent
        → t.world.cut ≡ s.world.cut
        → Cut payload t u
        → Cut payload s u
    later-Cut s t u same same' (inl h) = inl (cc (h, same'))
    later-Cut s t u same same' (inr (none_sent, frame, encoded, log)) =
        inr (cc (none_sent, same), frame, encoded, cc (log, same'))

    after-Cut : (s : Session fl) → Cut payload s ((m >>= f) s).1
    after-Cut s = elim (ends-cases (m s)) [
      | inl (a, t, k) ↦
          let q = Quiet-end m hm s t k in
          rw k (later-Cut s t (f a t).1 q.log q.cut_log ((hf a s t k).cuts t))
      | inr (e, t, k) ↦ rw k (inl (Quiet-end m hm s t k).cut_log)
    ]

    pub after-Writing : Writing payload (m >>= f)
    after-Writing = record {
      returns = after-returns;
      raises = after-raises;
      open_state = after-open_state;
      adds = after-Grew;
      cuts = after-Cut;
    }

  pub write_request-Writing :
      (command : Command) (d : Deadline fl) → Writing command.payload (write_request fl command d)
  unfolding write_request
  write_request-Writing command d =
      after-Writing {A = ℕ} (conn_get fl (λ c. c.max_message_size)) _ (Quiet-conn_get _)
        λ size s1 t1 h1.
          after-Writing (lift (check_request_size command.payload size)) _ (Quiet-lift _)
            λ u2 s2 t2 h2. after-Writing _ _ (require_socket-Quiet fl) λ u3 s3 t3 h3.
              after-Writing _ _ (apply_timeout-Quiet fl d) λ u4 s4 t4 h4.
                after-Writing _ _ (Quiet-lift _) λ frame s5 t5 h5.
                  after-Writing _ _ (next-Quiet fl) λ outcome s6 t6 h6.
                    written-Writing command.payload frame outcome (ap (λ r. r.0) h5)
