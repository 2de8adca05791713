-- ===== src/Sync/Retry/Pause.antt =====
-- The pause between two attempts of fq/sync/client.py, and the log of what was sent.
use fq_client_py.Prelude.{ℕ, ◌≡◌, refl, ap, inl, inr, Bool, true, false, if◌then◌else◌}
use fq_client_py.Exec.{Exec, pure, ◌>>=◌}
use fq_client_py.Exec.Inversion.{ends-cases}
use fq_client_py.Floats.{Floats}
use fq_client_py.World.{World}
use fq_client_py.Reconnect.{
  ReconnectPolicy, Deadline, ceiling, draw, delay, remaining, check, clamp, trim,
}
use fq_client_py.Sync.Connection.{new_connection, on_world}
use fq_client_py.Sync.Connection.Quiet.{Quiet}
use fq_client_py.Sync.Connection.Quiet.Calls.{remaining-Quiet, check-Quiet}
use fq_client_py.Sync.Retry.{sleep, backoff}

module _ {fl : Floats} where
  open fl use {F}

  pub record Unsent {A : Type 0} (m : Exec (World fl) A) : Type 0 where
    pub at : (w : World fl) → (m w).1.sent ≡ w.sent

  Unsent-bind :
      {A B : Type 0} (m : Exec (World fl) A) (f : A → Exec (World fl) B)
      → Unsent m
      → ((a : A) → Unsent (f a))
      → Unsent (m >>= f)
  Unsent-bind m f hm hf = record {
    at = λ w. elim (ends-cases (m w)) [
      | inl (a, v, k) ↦ rw k (cc ((hf a).at v, hm.at w, ap (λ r. r.1.sent) k))
      | inr (e, v, k) ↦ rw k (cc (hm.at w, ap (λ r. r.1.sent) k))
    ];
  }

  Unsent-Quiet : {A : Type 0} (m : Exec (World fl) A) → Quiet (on_world fl m) → Unsent m
  Unsent-Quiet m h = record {
    at = λ w. (h.at (record { conn = new_connection fl; world = w })).log;
  }

  Unsent-if :
      {A : Type 0} (b : Bool) (m n : Exec (World fl) A)
      → Unsent m
      → Unsent n
      → Unsent (if b then m else n)
  Unsent-if true m n hm hn = hm
  Unsent-if false m n hm hn = hn

  draw-Unsent : Unsent (draw fl)
  unfolding draw
  draw-Unsent = record { at = λ w. refl }

  delay-Unsent : (p : ReconnectPolicy fl) (attempt : ℕ) → Unsent (delay fl p attempt)
  unfolding delay
  delay-Unsent p attempt =
      Unsent-bind (λ w. (ceiling fl p attempt, w)) _ (record { at = λ w. refl })
        λ top.
          Unsent-bind (draw fl) (λ r. pure (fl.mul r top)) draw-Unsent
            λ r. record { at = λ w. refl }

  clamp-Unsent : (d : Deadline fl) (seconds : F) → Unsent (clamp fl d seconds)
  unfolding clamp
  clamp-Unsent d seconds =
      Unsent-bind (remaining fl d) (λ left. pure (trim fl seconds left))
        (Unsent-Quiet _ (remaining-Quiet fl d)) λ left. record { at = λ w. refl }

  pub backoff-Unsent :
      (p : ReconnectPolicy fl) (attempt : ℕ) (d : Deadline fl) → Unsent (backoff fl p attempt d)
  unfolding backoff
  backoff-Unsent p attempt d =
      Unsent-bind (check fl d) _ (Unsent-Quiet _ (check-Quiet fl d)) λ first.
        Unsent-bind (delay fl p attempt) _ (delay-Unsent p attempt) λ drawn.
          Unsent-bind (clamp fl d drawn) _ (clamp-Unsent d drawn) λ seconds.
            Unsent-bind (if fl.less fl.zero_float seconds then sleep fl seconds else pure tt) _
              (Unsent-if (fl.less fl.zero_float seconds) _ _ (record { at = λ w. refl })
                (record { at = λ w. refl }))
              λ slept. Unsent-Quiet _ (check-Quiet fl d)
