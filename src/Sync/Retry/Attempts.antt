-- ===== src/Sync/Retry/Attempts.antt =====
-- The loop of `_with_retry` in fq/sync/client.py, and its rounds under a bound on the attempts.
use fq_client_py.Prelude.{
  ℕ, zero, suc, ◌+◌, ◌≤◌, ◌<◌, ◌≡◌, ◌≢◌, refl, ap, subst, ◌∙◌, inl, inr, Bool, true, false, not,
  ◌&&◌, pos, Option, none, some, Bytes, ltb, if◌then◌else◌, arith,
}
use fq_client_py.Errors.{Exn, Result, ok, raise}
use fq_client_py.Exec.{Exec, handled, pure, throw}
use fq_client_py.Exec.Inversion.{ends-cases, bind-eq-ok}
use fq_client_py.Python.Decimal.{CharacterData}
use fq_client_py.Commands.{Command}
use fq_client_py.Floats.{Floats}
use fq_client_py.Reconnect.{ReconnectPolicy, Deadline, passes, exhausted}
use fq_client_py.Sync.Connection.{Config, Session, on_world, send}
use fq_client_py.Sync.Retry.{
  is_retried, backoff, try_reconnect, next_attempt, on_failure, with_retry, plain_send,
}

module _ {fl : Floats} where
  exhausted-le :
      (p : ReconnectPolicy fl) (n attempt : ℕ)
      → p.max_attempts ≡ some (pos n)
      → exhausted fl p attempt ≡ false
      → attempt ≤ n
  unfolding exhausted
  exhausted-le p n attempt bounded h =
      let open_still : (ltb n attempt ≡ false) =
        subst (λ m. elim m [ none ↦ false | some b ↦ passes attempt b ] ≡ false) bounded h in
      ground arith

  -- A result of the handler is one of the rest of the loop.
  handler-ok :
      (retried stuck over : Bool) (later : Exec (Session fl) (Option Bytes)) (e : Exn)
      (t v : Session fl) (r : Option Bytes)
      → (if not retried
            then throw e
            else if stuck
            then throw e
            else if over
            then throw e
            else later)
          t
        ≡ (ok r, v)
      → (over ≡ false) × (later t ≡ (ok r, v))
  handler-ok false stuck over later e t v r k = absurd (cc (ap (λ q. q.0) k))
  handler-ok true true over later e t v r k = absurd (cc (ap (λ q. q.0) k))
  handler-ok true false true later e t v r k = absurd (cc (ap (λ q. q.0) k))
  handler-ok true false false later e t v r k = (refl, k)

  module _ (u : CharacterData) (cfg : Config fl) (p : ReconnectPolicy fl) (command : Command)
      (d : Deadline fl) (sender : Command → Deadline fl → Exec (Session fl) (Option Bytes))
      (given : (s t : Session fl) (r : Option Bytes) → sender command d s ≡ (ok r, t) → r ≢ none)
      (n : ℕ) (bounded : p.max_attempts ≡ some (pos n)) where
    failure-ok :
        (attempt : ℕ) (rest : Exec (Session fl) (Option Bytes)) (e : Exn) (t v : Session fl)
        (r : Option Bytes)
        → on_failure fl u cfg p command d sender attempt rest e t ≡ (ok r, v)
        → (attempt ≤ n) × (t' : Session fl) × (rest t' ≡ (ok r, v))
    unfolding on_failure next_attempt
    failure-ok attempt rest e t v r k =
        let (more, k1) =
          handler-ok (is_retried e) (t.conn.request_in_flight && not command.read_only)
            (exhausted fl p attempt) (next_attempt fl u cfg p command d sender attempt rest) e t v r
            k in
        let (x, t1, k2, k3) = bind-eq-ok _ (on_world fl (backoff fl p attempt d)) t k1 in
        let (y, t2, k4, k5) = bind-eq-ok _ (try_reconnect fl u cfg p command d sender) t1 k3 in
        (exhausted-le p n attempt bounded more, t2, k5)

    with_retry-given :
        (fuel attempt : ℕ) (s t : Session fl) (r : Option Bytes)
        → attempt ≤ n
        → n < attempt + fuel
        → with_retry fl u cfg p command d sender fuel attempt s ≡ (ok r, t)
        → r ≢ none
    unfolding with_retry
    with_retry-given zero attempt s t r low enough k = absurd (omega arith)
    with_retry-given (suc fuel) attempt s t r low enough k =
        let rest = with_retry fl u cfg p command d sender fuel (suc attempt) in
        let handler = on_failure fl u cfg p command d sender (suc attempt) rest in
        elim (ends-cases (sender command d s)) [
          | inl (a, v, k1) ↦
              let done = subst (λ q. handled handler q ≡ (ok r, t)) k1 k in given s t r (k1 ∙ done)
          | inr (e, v, k1) ↦
              let failed = subst (λ q. handled handler q ≡ (ok r, t)) k1 k in
              let (low', v', k2) = failure-ok (suc attempt) rest e v t r failed in
              with_retry-given fuel (suc attempt) v' t r low' (omega arith) k2
        ]

  plain_send-given :
      (command : Command) (d : Deadline fl) (s t : Session fl) (r : Option Bytes)
      → plain_send fl command d s ≡ (ok r, t)
      → r ≢ none
  unfolding plain_send
  plain_send-given command d s t r k e =
      let (response, v, k1, k2) = bind-eq-ok (λ x. pure (some x)) (send fl command d) s k in
      let same : (some response ≡ r) = cc (ap (λ q. q.0) k2) in cc (same, e)

-- The loop ended with a response or an exception, not for want of fuel.
abbrev pub Answered : {fl : Floats} → Result (Option Bytes) × Session fl → Type 0
Answered (ok none, t) = ⊥
Answered (ok (some response), t) = Unit
Answered (raise e, t) = Unit

answered :
    {fl : Floats} (run : Result (Option Bytes) × Session fl)
    → ((t : Session fl) → ¬ (run ≡ (ok none, t)))
    → Answered run
answered (ok none, t) h = h t refl
answered (ok (some response), t) h = tt
answered (raise e, t) h = tt

-- Where the policy allows `n` attempts, the loop of `_with_retry` ends within `n + 1` rounds: on that
-- fuel it returns a response or raises.
pub with_retry-Answered :
    {fl : Floats} (u : CharacterData) (cfg : Config fl) (p : ReconnectPolicy fl) (command : Command)
    (d : Deadline fl) (n : ℕ) (s : Session fl)
    → p.max_attempts ≡ some (pos n)
    → Answered (with_retry fl u cfg p command d (plain_send fl) (suc n) 0 s)
with_retry-Answered {fl} u cfg p command d n s bounded =
    let run = with_retry fl u cfg p command d (plain_send fl) (suc n) 0 s in
    answered run λ t k.
      with_retry-given u cfg p command d (plain_send fl) (plain_send-given command d) n bounded
        (suc n) 0 s t none (omega arith) (omega arith) k refl
