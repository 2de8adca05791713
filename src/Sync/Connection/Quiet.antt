-- ===== src/Sync/Connection/Quiet.antt =====
-- A relation of states for the calls of fq/sync/connection.py that only read: the flag of a request in
-- flight, the logs of what was sent, the size limit and the openness, with a rule for each way to build
-- a call.
pub mod Calls
use fq_client_py.Prelude.{
  ℕ, zero, suc, ◌+◌, ◌-◌, ◌≤◌, ◌<◌, ◌≡◌, refl, subst, Bool, true, false, List, [], ◌∷◌, ◌++◌,
  Option, none, some, Bytes, ltb, length, length-append, take, drop, ap, ◌==◌, arith, if◌then◌else◌,
}
use fq_client_py.Errors.{Exn, Result, ok, raise, value_error, fq_timeout_error, fq_connection_error}
use fq_client_py.Exec.{Exec, continue, pure, throw, lift, catch, handled, ◌>>=◌}
use fq_client_py.Exec.Inversion.{bind-eq-ok}
use fq_client_py.Framing.{decode_frame_size}
use fq_client_py.Floats.{Floats}
use fq_client_py.World.{World, Event, done, os_error, timed_out, received}
use fq_client_py.Reconnect.{Deadline, clock, remaining, remaining_of, expired, is_over, check}
use fq_client_py.Sync.Connection.{
  Session, Connection, closed, on_world, conn_get, next_of, next, arrived, recv_of, recv,
  require_socket, expect_done, set_timeout, apply_timeout, chunk_of, read_from, read_exactly,
  read_frame,
}

module _ {fl : Floats} where
  open fl use {F, zero_float, sub, less_eq}

  -- From one state to another with the same flag, logs, size limit and openness, and no new event.
  pub record Untouched (s t : Session fl) : Type 0 where
    pub flag : t.conn.request_in_flight ≡ s.conn.request_in_flight
    pub log : t.world.sent ≡ s.world.sent
    pub cut_log : t.world.cut ≡ s.world.cut
    pub limit : t.conn.max_message_size ≡ s.conn.max_message_size
    pub open_state : closed fl t.conn ≡ closed fl s.conn
    pub fewer : length t.world.events ≤ length s.world.events

  pub record Quiet {A : Type 0} (m : Exec (Session fl) A) : Type 0 where
    pub at : (s : Session fl) → Untouched s (m s).1

  pub Untouched-refl : (s : Session fl) → Untouched s s
  Untouched-refl s = record {
    flag = refl;
    log = refl;
    cut_log = refl;
    limit = refl;
    open_state = refl;
    fewer = omega arith;
  }

  pub Untouched-trans : (s t u : Session fl) → Untouched s t → Untouched t u → Untouched s u
  Untouched-trans s t u h k = record {
    flag = cc (h.flag, k.flag);
    log = cc (h.log, k.log);
    cut_log = cc (h.cut_log, k.cut_log);
    limit = cc (h.limit, k.limit);
    open_state = cc (h.open_state, k.open_state);
    fewer = omega (arith, h.fewer, k.fewer);
  }

  module _ {A : Type 0} where
    pub Quiet-pure : (a : A) → Quiet (pure a)
    Quiet-pure a = record { at = Untouched-refl }

    pub Quiet-throw : (e : Exn) → Quiet {A = A} (throw e)
    Quiet-throw e = record { at = Untouched-refl }

    pub Quiet-lift : (r : Result A) → Quiet (lift r)
    Quiet-lift r = record { at = Untouched-refl }

    pub Quiet-conn_get : (f : Connection fl → A) → Quiet (conn_get fl f)
    Quiet-conn_get f = record { at = Untouched-refl }

  module _ {A B : Type 0} where
    pub continue-Untouched :
        (f : A → Exec (Session fl) B) (s : Session fl) (r : Result A × Session fl)
        → ((a : A) → Quiet (f a))
        → Untouched s r.1
        → Untouched s (continue f r).1
    continue-Untouched f s (ok a, t) hf h = Untouched-trans _ _ _ h ((hf a).at t)
    continue-Untouched f s (raise e, t) hf h = h

    pub Quiet-bind :
        (m : Exec (Session fl) A) (f : A → Exec (Session fl) B)
        → Quiet m
        → ((a : A) → Quiet (f a))
        → Quiet (m >>= f)
    Quiet-bind m f hm hf = record { at = λ s. continue-Untouched f s (m s) hf (hm.at s) }

  module _ {A : Type 0} (handler : Exn → Exec (Session fl) A) where
    handled-Untouched :
        (s : Session fl) (r : Result A × Session fl)
        → ((e : Exn) → Quiet (handler e))
        → Untouched s r.1
        → Untouched s (handled handler r).1
    handled-Untouched s (ok a, t) q h = h
    handled-Untouched s (raise e, t) q h = Untouched-trans _ _ _ h ((q e).at t)

    pub Quiet-catch :
        (m : Exec (Session fl) A)
        → Quiet m
        → ((e : Exn) → Quiet (handler e))
        → Quiet (catch m handler)
    Quiet-catch m hm q = record { at = λ s. handled-Untouched s (m s) q (hm.at s) }

  module _ {A : Type 0} where
    pub Quiet-if :
        (b : Bool) (m n : Exec (Session fl) A) → Quiet m → Quiet n → Quiet (if b then m else n)
    Quiet-if true m n hm hn = hm
    Quiet-if false m n hm hn = hn

    pub Quiet-elim :
        (b : Bool) (m n : Exec (Session fl) A)
        → Quiet m
        → Quiet n
        → Quiet (elim b [ true ↦ m | false ↦ n ])
    Quiet-elim true m n hm hn = hm
    Quiet-elim false m n hm hn = hn

  module _ {A : Type 0} (m : Exec (Session fl) A) where
    pub Quiet-end : Quiet m → (s t : Session fl) {r : Result A} → m s ≡ (r, t) → Untouched s t
    Quiet-end q s t h = subst (λ p. Untouched s p.1) h (q.at s)
