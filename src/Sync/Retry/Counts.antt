-- ===== src/Sync/Retry/Counts.antt =====
-- How often a frame stands in the log of what was sent, over the calls of fq/sync/connection.py.
use fq_client_py.Prelude.{
  ℕ, suc, ◌+◌, ◌≤◌, ◌≡◌, ◌≢◌, refl, ap, inl, inr, Bool-cases, not, List, [], ◌∷◌, ◌++◌, Option,
  some, Bytes, str_eq, str_eq_sound, ◌==◌, if◌then◌else◌, arith,
}
use fq_client_py.Errors.{Exn, Result, ok, raise, corrupted_response_error}
use fq_client_py.Exec.{Exec, pure, throw, lift, catch, ◌>>=◌, ◌>>◌}
use fq_client_py.Exec.Inversion.{ends-cases}
use fq_client_py.Python.Decimal.{CharacterData}
use fq_client_py.Types.{protocol_version}
use fq_client_py.Framing.{encode_frame}
use fq_client_py.Responses.{parse_hello}
use fq_client_py.Commands.{Command, hello}
use fq_client_py.Floats.{Floats}
use fq_client_py.Reconnect.{new_deadline}
use fq_client_py.Sync.Connection.{
  Config, Session, on_world, on_conn, next, expect_done, wrap_socket, close, send, handshake,
  connect, reconnect, split_address, negotiated,
}
use fq_client_py.Sync.Connection.Quiet.{Quiet, Quiet-lift, Quiet-throw, Quiet-pure, Quiet-if}
use fq_client_py.Sync.Connection.Quiet.Calls.{next-Quiet, expect_done-Quiet}
use fq_client_py.Sync.Connection.Opening.{wrap_socket-Quiet, new_deadline-Quiet}
use fq_client_py.Sync.Connection.Flight.{Grew}
use fq_client_py.Sync.Connection.Flight.Exchange.{send-Exchanging}

unfoldable pub count : Bytes → List Bytes → ℕ
count frame [] = 0
count frame (f ∷ fs) = let rest = count frame fs in if str_eq frame f then suc rest else rest

count-append :
    (frame f : Bytes) (fs : List Bytes)
    → count frame (fs ++ f ∷ []) ≡ count frame fs + (if str_eq frame f then 1 else 0)
unfolding count
count-append frame f [] = ground arith
count-append frame f (g ∷ fs) = ground (arith, count-append frame f fs)

-- The command of the handshake has another frame.
abbrev pub NotHello : Bytes → Option (List ℕ) → Type 0
NotHello frame token = (c : Command) → hello token ≡ ok c → encode_frame c.payload ≢ ok frame

module _ {fl : Floats} (frame : Bytes) where
  abbrev pub sent_count : Session fl → ℕ
  sent_count s = count frame s.world.sent

  pub Grew-le :
      (payload : Bytes) (s t : Session fl) → Grew payload s t → sent_count t ≤ suc (sent_count s)
  Grew-le payload s t (inl h) = omega (arith, ap (count frame) h)
  Grew-le payload s t (inr (f, encoded, h)) =
      let bound = ap (count frame) h in
      let grown = count-append frame f s.world.sent in ground arith

  Grew-ne :
      (payload : Bytes) (s t : Session fl)
      → encode_frame payload ≢ ok frame
      → Grew payload s t
      → sent_count t ≡ sent_count s
  Grew-ne payload s t other (inl h) = ap (count frame) h
  Grew-ne payload s t other (inr (f, encoded, h)) = elim (Bool-cases (str_eq frame f)) [
    | inl e ↦ absurd (other (cc (encoded, str_eq_sound frame f e)))
    | inr e ↦
        let bound = ap (count frame) h in
        let grown = count-append frame f s.world.sent in ground arith
  ]

  -- `m` does not send the frame, however it ends.
  pub record Sparing {A : Type 0} (m : Exec (Session fl) A) : Type 0 where
    pub at : (s : Session fl) → sent_count (m s).1 ≡ sent_count s

  module _ {A : Type 0} where
    pub Sparing-Quiet : (m : Exec (Session fl) A) → Quiet m → Sparing m
    Sparing-Quiet m h = record { at = λ s. ap (count frame) (h.at s).log }

    pub Sparing-catch :
        (m : Exec (Session fl) A) (h : Exn → Exec (Session fl) A)
        → Sparing m
        → ((e : Exn) → Sparing (h e))
        → Sparing (catch m h)
    Sparing-catch m h hm hh = record {
      at = λ s. elim (ends-cases (m s)) [
        | inl (a, t, k) ↦ rw k (cc (hm.at s, ap (λ r. sent_count r.1) k))
        | inr (e, t, k) ↦ rw k (cc ((hh e).at t, hm.at s, ap (λ r. sent_count r.1) k))
      ];
    }

  module _ {A B : Type 0} where
    pub Sparing-bind :
        (m : Exec (Session fl) A) (f : A → Exec (Session fl) B)
        → Sparing m
        → ((a : A) → Sparing (f a))
        → Sparing (m >>= f)
    Sparing-bind m f hm hf = record {
      at = λ s. elim (ends-cases (m s)) [
        | inl (a, t, k) ↦ rw k (cc ((hf a).at t, hm.at s, ap (λ r. sent_count r.1) k))
        | inr (e, t, k) ↦ rw k (cc (hm.at s, ap (λ r. sent_count r.1) k))
      ];
    }

  shaking-Sparing :
      (cfg : Config fl) (c : Command)
      → encode_frame c.payload ≢ ok frame
      → Sparing (do
        d ← on_world fl (new_deadline fl (some cfg.connect_timeout))
        response ← send fl c d
        info ← lift (parse_hello response)
        if not (info.version == protocol_version) then throw corrupted_response_error else pure tt
        on_conn fl (negotiated fl info))
  shaking-Sparing cfg c other =
      Sparing-bind (on_world fl (new_deadline fl (some cfg.connect_timeout))) _
        (Sparing-Quiet _ (new_deadline-Quiet cfg))
        λ d.
          Sparing-bind (send fl c d) _
            (record {
              at = λ s. Grew-ne c.payload s (send fl c d s).1 other ((send-Exchanging c d).adds s);
            })
            λ response.
              Sparing-bind (lift (parse_hello response)) _ (Sparing-Quiet _ (Quiet-lift _)) λ info.
                Sparing-bind
                  (if not (info.version == protocol_version)
                    then throw corrupted_response_error
                    else pure tt)
                  _
                  (Sparing-Quiet _ (
                    Quiet-if (not (info.version == protocol_version)) _ _ (Quiet-throw _)
                      (Quiet-pure tt)))
                  λ agreed. record { at = λ s. refl }

  with_command :
      (cfg : Config fl) (r : Result Command) (f : Command → Exec (Session fl) (Unit {0}))
      → ((c : Command) → r ≡ ok c → Sparing (f c))
      → Sparing (lift r >>= f)
  with_command cfg (ok c) f h = record { at = λ s. (h c refl).at s }
  with_command cfg (raise e) f h = record { at = λ s. refl }

  handshake-Sparing : (cfg : Config fl) → NotHello frame cfg.token → Sparing (handshake fl cfg)
  unfolding handshake
  handshake-Sparing cfg other =
      with_command cfg (hello cfg.token) _ λ c k. shaking-Sparing cfg c (other c k)

  close-Sparing : Sparing (close fl)
  unfolding close
  close-Sparing = record { at = λ s. refl }

  closing-Sparing : (e : Exn) → Sparing {A = Unit {0}} (do close fl; throw e)
  closing-Sparing e = Sparing-bind (close fl) _ close-Sparing λ shut. record { at = λ s. refl }

  connect-Sparing :
      (u : CharacterData) (cfg : Config fl) → NotHello frame cfg.token → Sparing (connect fl u cfg)
  unfolding connect
  connect-Sparing u cfg other =
      Sparing-bind (lift (split_address u cfg.address)) _ (Sparing-Quiet _ (Quiet-lift _))
        λ address. Sparing-bind (next fl) _ (Sparing-Quiet _ (next-Quiet fl)) λ outcome.
          Sparing-bind (expect_done fl outcome) _ (Sparing-Quiet _ (expect_done-Quiet fl outcome))
            λ done.
              Sparing-bind (wrap_socket fl cfg.has_ssl_context) _
                (Sparing-Quiet _ (wrap_socket-Quiet _))
                λ wrapped.
                  Sparing-bind (on_conn fl _) _ (record { at = λ s. refl })
                    λ opened. Sparing-catch _ _ (handshake-Sparing cfg other) λ e. closing-Sparing e

  pub reconnect-Sparing :
      (u : CharacterData) (cfg : Config fl)
      → NotHello frame cfg.token
      → Sparing (reconnect fl u cfg)
  unfolding reconnect
  reconnect-Sparing u cfg other =
      Sparing-bind (close fl) _ close-Sparing λ shut. connect-Sparing u cfg other
