-- ===== src/Sync/Connection/Flight/Exchange.antt =====
-- A whole exchange of fq/sync/connection.py, `send` and `send_chunked`: the flag and the log at its end.
use fq_client_py.Prelude.{
  zero, suc, ◌≡◌, ◌≢◌, refl, ap, subst, sym, inl, inr, false, ◌∷◌, ◌++◌, ℕ, [], Option, none, some,
  Bytes,
}
use fq_client_py.Errors.{Exn, ok, raise}
use fq_client_py.Exec.{Exec, pure, lift, ◌>>=◌, ◌>>◌}
use fq_client_py.Exec.Inversion.{bind-eq-ok, bind-eq-raise, ends-cases}
use fq_client_py.Framing.{encode_frame}
use fq_client_py.Chunked.{ChunkAssembler, new_assembler, feed}
use fq_client_py.Commands.{Command}
use fq_client_py.Floats.{Floats}
use fq_client_py.Reconnect.{Deadline}
use fq_client_py.Sync.Connection.{Session, closed, read_chunks, set_in_flight, send, send_chunked}
use fq_client_py.Sync.Connection.Quiet.{Quiet, Quiet-end, Quiet-lift}
use fq_client_py.Sync.Connection.Quiet.Calls.{read_frame-Quiet}
use fq_client_py.Sync.Connection.Flight.{Writing, Grew, Cut, write_request-Writing}

-- The loop ended with a response.
abbrev pub Given : Option Bytes → Type 0
Given r = r ≢ none

module _ {fl : Floats} where
  -- `m` reads to the end of a response that passes `Final`: then no request is in flight. It sends
  -- nothing, it opens and closes nothing, and a raise leaves the flag.
  pub record Finishing {A : Type 0} (Final : A → Type 0) (m : Exec (Session fl) A) : Type 0 where
    pub returns :
        (s t : Session fl) (a : A) → m s ≡ (ok a, t) → Final a → t.conn.request_in_flight ≡ false
    pub raises :
        (s t : Session fl) (e : Exn)
        → m s ≡ (raise e, t)
        → t.conn.request_in_flight ≡ s.conn.request_in_flight
    pub log : (s : Session fl) → (m s).1.world.sent ≡ s.world.sent
    pub cut_log : (s : Session fl) → (m s).1.world.cut ≡ s.world.cut
    pub open_state : (s : Session fl) → closed fl (m s).1.conn ≡ closed fl s.conn

  module _ {A B : Type 0} {Final : B → Type 0} (m : Exec (Session fl) A)
      (f : A → Exec (Session fl) B) (hm : Quiet m) (hf : (a : A) → Finishing Final (f a)) where
    then-returns :
        (s t : Session fl) (b : B)
        → (m >>= f) s ≡ (ok b, t)
        → Final b
        → t.conn.request_in_flight ≡ false
    then-returns s t b k h = let (a, u, k1, k2) = bind-eq-ok f m s k in (hf a).returns u t b k2 h

    then-raises :
        (s t : Session fl) (e : Exn)
        → (m >>= f) s ≡ (raise e, t)
        → t.conn.request_in_flight ≡ s.conn.request_in_flight
    then-raises s t e k = elim (bind-eq-raise f m s k) [
      | inl k1 ↦ (Quiet-end m hm s t k1).flag
      | inr (a, u, k1, k2) ↦ cc ((hf a).raises u t e k2, (Quiet-end m hm s u k1).flag)
    ]

    then-log : (s : Session fl) → ((m >>= f) s).1.world.sent ≡ s.world.sent
    then-log s = elim (ends-cases (m s)) [
      | inl (a, t, k) ↦ rw k (cc ((hf a).log t, (Quiet-end m hm s t k).log))
      | inr (e, t, k) ↦ rw k (Quiet-end m hm s t k).log
    ]

    then-cut_log : (s : Session fl) → ((m >>= f) s).1.world.cut ≡ s.world.cut
    then-cut_log s = elim (ends-cases (m s)) [
      | inl (a, t, k) ↦ rw k (cc ((hf a).cut_log t, (Quiet-end m hm s t k).cut_log))
      | inr (e, t, k) ↦ rw k (Quiet-end m hm s t k).cut_log
    ]

    then-open_state : (s : Session fl) → closed fl ((m >>= f) s).1.conn ≡ closed fl s.conn
    then-open_state s = elim (ends-cases (m s)) [
      | inl (a, t, k) ↦ rw k (cc ((hf a).open_state t, (Quiet-end m hm s t k).open_state))
      | inr (e, t, k) ↦ rw k (Quiet-end m hm s t k).open_state
    ]

    then-Finishing : Finishing Final (m >>= f)
    then-Finishing = record {
      returns = then-returns;
      raises = then-raises;
      log = then-log;
      cut_log = then-cut_log;
      open_state = then-open_state;
    }

  -- What a whole exchange does, by how it ends.
  pub record Exchanging {A : Type 0} (Final : A → Type 0) (payload : Bytes)
      (m : Exec (Session fl) A) : Type 0 where
    -- With a response, exactly the frame of the payload was sent, and none is in flight.
    pub returns :
        (s t : Session fl) (a : A)
        → m s ≡ (ok a, t)
        → Final a
        → (t.conn.request_in_flight ≡ false)
          × (frame : Bytes) × (encode_frame payload ≡ ok frame)
          × (t.world.sent ≡ s.world.sent ++ frame ∷ [])
    -- After a raise with none in flight, nothing was sent.
    pub raises :
        (s t : Session fl) (e : Exn)
        → m s ≡ (raise e, t)
        → t.conn.request_in_flight ≡ false
        → t.world.sent ≡ s.world.sent
    -- However it ends, the frame of the payload was sent once or not at all.
    pub adds : (s : Session fl) → Grew payload s (m s).1
    -- However it ends, at most the frame of the payload was cut off, and then it was not sent.
    pub cuts : (s : Session fl) → Cut payload s (m s).1
    -- When it returns, whatever its result, the frame was sent whole.
    pub keeps :
        (s t : Session fl) (a : A)
        → m s ≡ (ok a, t)
        → (frame : Bytes) × (encode_frame payload ≡ ok frame)
          × (t.world.sent ≡ s.world.sent ++ frame ∷ [])
          × (t.world.cut ≡ s.world.cut)
    -- However it ends, the connection is open at the end if it was at the start.
    pub open_state : (s : Session fl) → closed fl (m s).1.conn ≡ closed fl s.conn

  module _ {A : Type 0} {Final : A → Type 0} {payload : Bytes} (m : Exec (Session fl) (Unit {0}))
      (g : Exec (Session fl) A) (hm : Writing payload m) (hg : Finishing Final g) where
    exchange-returns :
        (s t : Session fl) (a : A)
        → (m >>= λ u. g) s ≡ (ok a, t)
        → Final a
        → (t.conn.request_in_flight ≡ false)
          × (frame : Bytes) × (encode_frame payload ≡ ok frame)
          × (t.world.sent ≡ s.world.sent ++ frame ∷ [])
    exchange-returns s t a k h =
        let (x, u, k1, k2) = bind-eq-ok (λ u. g) m s k in
        let w = hm.returns s u k1 in
        (
          hg.returns u t a k2 h,
          w.frame,
          w.encoded,
          cc (ap (λ r. r.1.world.sent) k2, hg.log u, w.log),
        )

    exchange-raises :
        (s t : Session fl) (e : Exn)
        → (m >>= λ u. g) s ≡ (raise e, t)
        → t.conn.request_in_flight ≡ false
        → t.world.sent ≡ s.world.sent
    exchange-raises s t e k h = elim (bind-eq-raise (λ u. g) m s k) [
      | inl k1 ↦ hm.raises s t e k1 h
      | inr (x, u, k1, k2) ↦ absurd (cc (hg.raises u t e k2, (hm.returns s u k1).flag, h))
    ]

    exchange-open_state : (s : Session fl) → closed fl ((m >>= λ u. g) s).1.conn ≡ closed fl s.conn
    exchange-open_state s = elim (ends-cases (m s)) [
      | inl (x, t, k) ↦ rw k (cc (hg.open_state t, ap (λ r. closed fl r.1.conn) k, hm.open_state s))
      | inr (e, t, k) ↦ rw k (cc (ap (λ r. closed fl r.1.conn) k, hm.open_state s))
    ]

    kept-Grew :
        (s t u : Session fl) → u.world.sent ≡ t.world.sent → Grew payload s t → Grew payload s u
    kept-Grew s t u same (inl h) = inl (cc (h, same))
    kept-Grew s t u same (inr (frame, encoded, log)) = inr (frame, encoded, cc (log, same))

    exchange-Grew : (s : Session fl) → Grew payload s ((m >>= λ u. g) s).1
    exchange-Grew s = elim (ends-cases (m s)) [
      | inl (x, t, k) ↦
          rw k (kept-Grew s t (g t).1 (hg.log t) (subst (λ r. Grew payload s r.1) k (hm.adds s)))
      | inr (e, t, k) ↦ rw k (subst (λ r. Grew payload s r.1) k (hm.adds s))
    ]

    kept-Cut :
        (s t u : Session fl)
        → u.world.sent ≡ t.world.sent
        → u.world.cut ≡ t.world.cut
        → Cut payload s t
        → Cut payload s u
    kept-Cut s t u same same' (inl h) = inl (cc (h, same'))
    kept-Cut s t u same same' (inr (none_sent, frame, encoded, log)) =
        inr (cc (none_sent, same), frame, encoded, cc (log, same'))

    exchange-Cut : (s : Session fl) → Cut payload s ((m >>= λ u. g) s).1
    exchange-Cut s = elim (ends-cases (m s)) [
      | inl (x, t, k) ↦ rw k (
          kept-Cut s t (g t).1 (hg.log t) (hg.cut_log t)
            (subst (λ r. Cut payload s r.1) k (hm.cuts s)))
      | inr (e, t, k) ↦ rw k (subst (λ r. Cut payload s r.1) k (hm.cuts s))
    ]

    exchange-keeps :
        (s t : Session fl) (a : A)
        → (m >>= λ u. g) s ≡ (ok a, t)
        → (frame : Bytes) × (encode_frame payload ≡ ok frame)
          × (t.world.sent ≡ s.world.sent ++ frame ∷ [])
          × (t.world.cut ≡ s.world.cut)
    exchange-keeps s t a k =
        let (x, u, k1, k2) = bind-eq-ok (λ u. g) m s k in
        let w = hm.returns s u k1 in
        (
          w.frame,
          w.encoded,
          cc (ap (λ r. r.1.world.sent) k2, hg.log u, w.log),
          cc (ap (λ r. r.1.world.cut) k2, hg.cut_log u, w.cut_log),
        )

    exchange-Exchanging : Exchanging Final payload (m >>= λ u. g)
    exchange-Exchanging = record {
      returns = exchange-returns;
      raises = exchange-raises;
      adds = exchange-Grew;
      cuts = exchange-Cut;
      keeps = exchange-keeps;
      open_state = exchange-open_state;
    }

  ending-Finishing :
      {A : Type 0} {Final : A → Type 0} (a : A)
      → Finishing Final (do set_in_flight fl false; pure a)
  unfolding closed
  ending-Finishing a = record {
    returns = λ s t b k h. ap (λ r. r.1.conn.request_in_flight) (sym k);
    raises = λ s t e k. absurd (cc (ap (λ r. r.0) k));
    log = λ s. refl;
    cut_log = λ s. refl;
    open_state = λ s. refl;
  }

  -- `send` is an exchange, whatever response it returns.
  pub send-Exchanging :
      (command : Command) (d : Deadline fl)
      → Exchanging (λ r. Unit {0}) command.payload (send fl command d)
  unfolding send
  send-Exchanging command d =
      exchange-Exchanging _ _ (write_request-Writing command d)
        (then-Finishing _ _ (read_frame-Quiet fl d) ending-Finishing)

  response-Finishing :
      (rest : Exec (Session fl) (Option Bytes)) (r : Option Bytes)
      → Finishing Given rest
      → Finishing Given
          (elim r [ none ↦ rest | some response ↦ do set_in_flight fl false; pure (some response) ])
  response-Finishing rest none h = h
  response-Finishing rest (some response) h = ending-Finishing (some response)

  read_chunks-Finishing :
      (fuel : ℕ) (assembler : ChunkAssembler) (d : Deadline fl)
      → Finishing Given (read_chunks fl fuel assembler d)
  unfolding read_chunks
  read_chunks-Finishing zero assembler d = record {
    returns = λ s t a k h. absurd (h (cc (ap (λ r. r.0) k)));
    raises = λ s t e k. absurd (cc (ap (λ r. r.0) k));
    log = λ s. refl;
    cut_log = λ s. refl;
    open_state = λ s. refl;
  }
  read_chunks-Finishing (suc fuel) assembler d = then-Finishing _ _ (read_frame-Quiet fl d) λ frame.
      then-Finishing (lift (feed frame assembler).0) _ (Quiet-lift _)
        λ r. response-Finishing _ r (read_chunks-Finishing fuel (feed frame assembler).1 d)

  -- `send_chunked` is an exchange that ends with a response.
  pub send_chunked-Exchanging :
      (fuel : ℕ) (command : Command) (d : Deadline fl)
      → Exchanging Given command.payload (send_chunked fl fuel command d)
  unfolding send_chunked
  send_chunked-Exchanging fuel command d =
      exchange-Exchanging _ _ (write_request-Writing command d)
        (read_chunks-Finishing fuel new_assembler d)
