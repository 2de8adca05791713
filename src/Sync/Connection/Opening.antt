-- ===== src/Sync/Connection/Opening.antt =====
-- `connect` and `reconnect` of fq/sync/connection.py, by how they end.
use fq_client_py.Prelude.{
  ◌≡◌, refl, ap, subst, sym, inl, inr, Bool, true, false, not, [], none, some, ◌==◌, if◌then◌else◌,
}
use fq_client_py.Errors.{Exn, Result, ok, raise, corrupted_response_error}
use fq_client_py.Exec.{Exec, pure, throw, lift, catch, handled, ◌>>=◌, ◌>>◌}
use fq_client_py.Exec.Inversion.{bind-eq-ok, bind-eq-raise, ends-cases}
use fq_client_py.Python.Decimal.{CharacterData}
use fq_client_py.Types.{protocol_version, default_max_message_size}
use fq_client_py.Responses.{parse_hello}
use fq_client_py.Commands.{hello}
use fq_client_py.Floats.{Floats}
use fq_client_py.Reconnect.{clock, new_deadline}
use fq_client_py.Sync.Connection.{
  Config, Session, closed, close, on_world, next, expect_done, wrap_socket, handshake, send,
  connect, reconnect, split_address,
}
use fq_client_py.Sync.Connection.Quiet.{
  Quiet, Quiet-end, Quiet-pure, Quiet-throw, Quiet-lift, Quiet-bind, Quiet-if,
}
use fq_client_py.Sync.Connection.Quiet.Calls.{next-Quiet, expect_done-Quiet, on_world-Quiet}
use fq_client_py.Sync.Connection.Flight.Exchange.{send-Exchanging}

module _ {fl : Floats} where
  -- From a closed connection, `m` returns with it open and no request in flight, and raises with it
  -- closed.
  pub record Opening (m : Exec (Session fl) (Unit {0})) : Type 0 where
    pub returns :
        (s t : Session fl)
        → closed fl s.conn ≡ true
        → m s ≡ (ok tt, t)
        → (closed fl t.conn ≡ false) × (t.conn.request_in_flight ≡ false)
    pub raises :
        (s t : Session fl) (e : Exn)
        → closed fl s.conn ≡ true
        → m s ≡ (raise e, t)
        → closed fl t.conn ≡ true

  pub wrap_socket-Quiet : (b : Bool) → Quiet (wrap_socket fl b)
  wrap_socket-Quiet false = Quiet-pure tt
  wrap_socket-Quiet true = Quiet-bind _ _ (next-Quiet fl) (expect_done-Quiet fl)

  pub new_deadline-Quiet :
      (cfg : Config fl) → Quiet (on_world fl (new_deadline fl (some cfg.connect_timeout)))
  unfolding new_deadline clock
  new_deadline-Quiet cfg = on_world-Quiet fl _ (λ w. ((refl, refl), refl))

  after-Opening :
      {A : Type 0} (m : Exec (Session fl) A) (f : A → Exec (Session fl) (Unit {0}))
      → Quiet m
      → ((a : A) → Opening (f a))
      → Opening (m >>= f)
  after-Opening m f hm hf = record {
    returns = λ s t h k.
        let (a, u, k1, k2) = bind-eq-ok f m s k in
        (hf a).returns u t (cc ((Quiet-end m hm s u k1).open_state, h)) k2;
    raises = λ s t e h k. elim (bind-eq-raise f m s k) [
      | inl k1 ↦ cc ((Quiet-end m hm s t k1).open_state, h)
      | inr (a, u, k1, k2) ↦ (hf a).raises u t e (cc ((Quiet-end m hm s u k1).open_state, h)) k2
    ];
  }

  handshake_lem :
      (cfg : Config fl) (s t : Session fl)
      → closed fl s.conn ≡ false
      → handshake fl cfg s ≡ (ok tt, t)
      → (closed fl t.conn ≡ false) × (t.conn.request_in_flight ≡ false)
  unfolding handshake closed
  handshake_lem cfg s t h k =
      let (command, s1, k1, r1) = bind-eq-ok _ (lift (hello cfg.token)) s k in
      let (d, s2, k2, r2) =
        bind-eq-ok _ (on_world fl (new_deadline fl (some cfg.connect_timeout))) s1 r1 in
      let (response, s3, k3, r3) = bind-eq-ok _ (send fl command d) s2 r2 in
      let (info, s4, k4, r4) = bind-eq-ok _ (lift (parse_hello response)) s3 r3 in
      let (x, s5, k5, r5) =
        bind-eq-ok _
          (if not (info.version == protocol_version)
            then throw corrupted_response_error
            else pure tt)
          s4 r4 in
      let q1 = Quiet-end _ (Quiet-lift _) s s1 k1 in
      let q2 = Quiet-end _ (new_deadline-Quiet cfg) s1 s2 k2 in
      let q4 = Quiet-end _ (Quiet-lift _) s3 s4 k4 in
      let q5 =
        Quiet-end _
          (Quiet-if (not (info.version == protocol_version)) _ _ (Quiet-throw _) (Quiet-pure tt)) s4
          s5 k5 in
      let exchange = send-Exchanging command d in
      let flag = (exchange.returns s2 s3 response k3 tt).0 in
      (
        cc (
          ap (λ r. closed fl r.1.conn) r5,
          q5.open_state,
          q4.open_state,
          ap (λ r. closed fl r.1.conn) k3,
          exchange.open_state s2,
          q2.open_state,
          q1.open_state,
          h,
        ),
        cc (ap (λ r. r.1.conn.request_in_flight) r5, q5.flag, q4.flag, flag),
      )

  abbrev close_and_raise : Exn → Exec (Session fl) (Unit {0})
  close_and_raise e = do close fl; throw e

  caught-returns :
      (r : Result (Unit {0}) × Session fl) (t : Session fl)
      → handled close_and_raise r ≡ (ok tt, t)
      → r ≡ (ok tt, t)
  unfolding close
  caught-returns (ok x, s) t k = k
  caught-returns (raise e, s) t k = absurd (cc (ap (λ p. p.0) k))

  caught-raises :
      (r : Result (Unit {0}) × Session fl) (t : Session fl) (e : Exn)
      → handled close_and_raise r ≡ (raise e, t)
      → closed fl t.conn ≡ true
  unfolding close closed
  caught-raises (ok x, s) t e k = absurd (cc (ap (λ p. p.0) k))
  caught-raises (raise e', s) t e k = ap (λ p. closed fl p.1.conn) (sym k)

  abbrev begun : Session fl → Session fl
  begun s = record s {
    conn = record s.conn {
      sock = some [];
      max_message_size = default_max_message_size;
      request_in_flight = false;
    };
  }

  shake-Opening :
      (cfg : Config fl) → Opening (λ s. catch (handshake fl cfg) close_and_raise (begun s))
  unfolding closed
  shake-Opening cfg = record {
    returns = λ s t h k.
        handshake_lem cfg (begun s) t refl (caught-returns (handshake fl cfg (begun s)) t k);
    raises = λ s t e h k. caught-raises (handshake fl cfg (begun s)) t e k;
  }

  connect-Opening : (u : CharacterData) (cfg : Config fl) → Opening (connect fl u cfg)
  unfolding connect
  connect-Opening u cfg =
      after-Opening (lift (split_address u cfg.address)) _ (Quiet-lift _) λ address.
        after-Opening (next fl) _ (next-Quiet fl) λ outcome.
          after-Opening (expect_done fl outcome) _ (expect_done-Quiet fl outcome) λ done.
            after-Opening (wrap_socket fl cfg.has_ssl_context) _ (wrap_socket-Quiet _)
              λ wrapped. shake-Opening cfg

  -- Open and with no request in flight behind a return, closed behind a raise.
  abbrev pub Reopened : Result (Unit {0}) × Session fl → Type 0
  Reopened (ok x, t) = (closed fl t.conn ≡ false) × (t.conn.request_in_flight ≡ false)
  Reopened (raise e, t) = closed fl t.conn ≡ true

  ended-Reopened :
      (m : Exec (Session fl) (Unit {0})) (s : Session fl)
      → Opening m
      → closed fl s.conn ≡ true
      → Reopened (m s)
  ended-Reopened m s h k = elim (ends-cases (m s)) [
    | inl (x, t, e) ↦ subst Reopened (sym e) (h.returns s t k e)
    | inr (x, t, e) ↦ subst Reopened (sym e) (h.raises s t x k e)
  ]

  -- Whatever state the connection was in, `reconnect` returns with it open and no request in flight,
  -- or raises with it closed.
  pub reconnect-Reopened :
      (u : CharacterData) (cfg : Config fl) (s : Session fl) → Reopened (reconnect fl u cfg s)
  unfolding reconnect close closed
  reconnect-Reopened u cfg s =
      let shut = record s { conn = record s.conn { sock = none } } in
      ended-Reopened (connect fl u cfg) shut (connect-Opening u cfg) refl
