-- ===== src/Sync/Retry/Once.antt =====
-- The loop of `_with_retry` in fq/sync/client.py, and how often it sends a frame.
use fq_client_py.Prelude.{
  ℕ, zero, suc, ◌≤◌, ◌≡◌, refl, ap, subst, inl, inr, Bool, true, false, not, ◌&&◌, Option, some,
  Bytes, if◌then◌else◌, arith,
}
use fq_client_py.Errors.{Exn, raise}
use fq_client_py.Exec.{Exec, pure, throw, ◌>>=◌}
use fq_client_py.Exec.Inversion.{ends-cases, bind-eq-raise}
use fq_client_py.Python.Decimal.{CharacterData}
use fq_client_py.Commands.{Command}
use fq_client_py.Floats.{Floats}
use fq_client_py.Reconnect.{ReconnectPolicy, Deadline, exhausted}
use fq_client_py.Sync.Connection.{Config, Session, on_world, send}
use fq_client_py.Sync.Connection.Flight.Exchange.{send-Exchanging}
use fq_client_py.Sync.Retry.{
  is_retried, backoff, try_reconnect, next_attempt, on_failure, with_retry, plain_send,
}
use fq_client_py.Sync.Retry.Pause.{backoff-Unsent}
use fq_client_py.Sync.Retry.Counts.{
  count, sent_count, Grew-le, NotHello, Sparing, Sparing-catch, reconnect-Sparing,
}

module _ {fl : Floats} (frame : Bytes) where
  -- `m` sends the frame at most once.
  record Once {A : Type 0} (m : Exec (Session fl) A) : Type 0 where
    pub at : (s : Session fl) → sent_count frame (m s).1 ≤ suc (sent_count frame s)

  Once-after :
      {A B : Type 0} (m : Exec (Session fl) A) (f : A → Exec (Session fl) B)
      → Sparing frame m
      → ((a : A) → Once (f a))
      → Once (m >>= f)
  Once-after m f hm hf = record {
    at = λ s. elim (ends-cases (m s)) [
      | inl (a, t, k) ↦ rw k (omega (arith, (hf a).at t, hm.at s, ap (λ r. sent_count frame r.1) k))
      | inr (e, t, k) ↦ rw k (omega (arith, hm.at s, ap (λ r. sent_count frame r.1) k))
    ];
  }

  backoff-Sparing :
      (p : ReconnectPolicy fl) (attempt : ℕ) (d : Deadline fl)
      → Sparing frame (on_world fl (backoff fl p attempt d))
  backoff-Sparing p attempt d = record {
    at = λ s. ap (count frame) ((backoff-Unsent p attempt d).at s.world);
  }

  Sparing-if :
      {A : Type 0} (b : Bool) (m n : Exec (Session fl) A)
      → Sparing frame m
      → Sparing frame n
      → Sparing frame (if b then m else n)
  Sparing-if true m n hm hn = hm
  Sparing-if false m n hm hn = hn

  module _ (u : CharacterData) (cfg : Config fl) (p : ReconnectPolicy fl) (command : Command)
      (d : Deadline fl) (sender : Command → Deadline fl → Exec (Session fl) (Option Bytes))
      (other : NotHello frame cfg.token) (mutating : command.read_only ≡ false) where
    try_reconnect-Sparing : Sparing frame (try_reconnect fl u cfg p command d sender)
    unfolding try_reconnect
    try_reconnect-Sparing =
        Sparing-catch frame _ _ (reconnect-Sparing frame u cfg other)
          λ e. Sparing-if (is_retried e) _ _ (record { at = λ s. refl }) (record { at = λ s. refl })

    next_attempt-Once :
        (attempt : ℕ) (rest : Exec (Session fl) (Option Bytes))
        → Once rest
        → Once (next_attempt fl u cfg p command d sender attempt rest)
    unfolding next_attempt
    next_attempt-Once attempt rest h =
        Once-after (on_world fl (backoff fl p attempt d)) _ (backoff-Sparing p attempt d) λ slept.
          Once-after (try_reconnect fl u cfg p command d sender) _ try_reconnect-Sparing λ tried. h

    module _ (later : Exec (Session fl) (Option Bytes)) (hl : Once later) (e : Exn) where
      -- The handler sends nothing itself where a request is in flight, and at most once where not.
      refused :
          (retried flag over : Bool) (t : Session fl)
          → sent_count frame
              ((if not retried
                  then throw e
                  else if flag && not command.read_only
                  then throw e
                  else if over
                  then throw e
                  else later)
                t).1
            ≤ (if flag then sent_count frame t else suc (sent_count frame t))
      refused false true over t = omega arith
      refused false false over t = omega arith
      refused true true over t = rw mutating (omega arith)
      refused true false true t = omega arith
      refused true false false t = hl.at t

    failure-le :
        (attempt : ℕ) (rest : Exec (Session fl) (Option Bytes))
        → Once rest
        → (e : Exn) (t : Session fl)
        → sent_count frame (on_failure fl u cfg p command d sender attempt rest e t).1
          ≤ (if t.conn.request_in_flight then sent_count frame t else suc (sent_count frame t))
    unfolding on_failure
    failure-le attempt rest h e t =
        refused (next_attempt fl u cfg p command d sender attempt rest)
          (next_attempt-Once attempt rest h) e (is_retried e) t.conn.request_in_flight
          (exhausted fl p attempt) t

    module _ (grows : Once (sender command d))
        (unsent : (s t : Session fl) (e : Exn)
          → sender command d s ≡ (raise e, t)
          → t.conn.request_in_flight ≡ false
          → sent_count frame t ≡ sent_count frame s) where
      failed-le :
          (flag : Bool) (n : ℕ) (s t : Session fl) (e : Exn)
          → t.conn.request_in_flight ≡ flag
          → sender command d s ≡ (raise e, t)
          → n ≤ (if t.conn.request_in_flight then sent_count frame t else suc (sent_count frame t))
          → n ≤ suc (sent_count frame s)
      failed-le true n s t e h k bound =
          let all =
            subst (λ b. n ≤ (if b then sent_count frame t else suc (sent_count frame t))) h bound in
          omega (arith, all, grows.at s, ap (λ r. sent_count frame r.1) k)
      failed-le false n s t e h k bound =
          let all =
            subst (λ b. n ≤ (if b then sent_count frame t else suc (sent_count frame t))) h bound in
          omega (arith, all, unsent s t e k h)

      with_retry-Once :
          (fuel attempt : ℕ) → Once (with_retry fl u cfg p command d sender fuel attempt)
      unfolding with_retry
      with_retry-Once zero attempt = record { at = λ s. omega arith }
      with_retry-Once (suc fuel) attempt = record {
        at = λ s. elim (ends-cases (sender command d s)) [
          | inl (a, t, k) ↦ rw k (omega (arith, grows.at s, ap (λ r. sent_count frame r.1) k))
          | inr (e, t, k) ↦ rw k (
              failed-le t.conn.request_in_flight _ s t e refl k (
                failure-le (suc attempt) (with_retry fl u cfg p command d sender fuel (suc attempt))
                  (with_retry-Once fuel (suc attempt)) e t))
        ];
      }

  plain_send-Once : (command : Command) (d : Deadline fl) → Once (plain_send fl command d)
  unfolding plain_send
  plain_send-Once command d = record {
    at = λ s. elim (ends-cases (send fl command d s)) [
      | inl (r, t, k) ↦ rw k (
          subst (λ q. sent_count frame q.1 ≤ suc (sent_count frame s)) k
            (Grew-le frame command.payload s (send fl command d s).1
              ((send-Exchanging command d).adds s)))
      | inr (e, t, k) ↦ rw k (
          subst (λ q. sent_count frame q.1 ≤ suc (sent_count frame s)) k
            (Grew-le frame command.payload s (send fl command d s).1
              ((send-Exchanging command d).adds s)))
    ];
  }

  plain_send-unsent :
      (command : Command) (d : Deadline fl) (s t : Session fl) (e : Exn)
      → plain_send fl command d s ≡ (raise e, t)
      → t.conn.request_in_flight ≡ false
      → sent_count frame t ≡ sent_count frame s
  unfolding plain_send
  plain_send-unsent command d s t e k flag =
      elim (bind-eq-raise (λ r. pure (some r)) (send fl command d) s k) [
        | inl k1 ↦ ap (count frame) ((send-Exchanging command d).raises s t e k1 flag)
        | inr (r, v, k1, k2) ↦ absurd (cc (ap (λ q. q.0) k2))
      ]

-- However often the loop of `_with_retry` reconnects and tries again, and however it ends: a command
-- that is not read-only is sent at most once. The log is counted for a frame other than that of the
-- handshake.
pub with_retry_once :
    {fl : Floats} (frame : Bytes) (u : CharacterData) (cfg : Config fl) (p : ReconnectPolicy fl)
    (command : Command) (d : Deadline fl) (fuel attempt : ℕ) (s : Session fl)
    → NotHello frame cfg.token
    → command.read_only ≡ false
    → sent_count frame (with_retry fl u cfg p command d (plain_send fl) fuel attempt s).1
      ≤ suc (sent_count frame s)
with_retry_once {fl} frame u cfg p command d fuel attempt s other mutating =
    (with_retry-Once frame u cfg p command d (plain_send fl) other mutating
        (plain_send-Once frame command d) (plain_send-unsent frame command d) fuel attempt).at
      s
