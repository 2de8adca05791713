-- ===== src/Reconnect/Delay.antt =====
-- The delay before an attempt, of fq/_reconnect.py, where the power of the multiplier is out of range.
use fq_client_py.Prelude.{ℕ, ◌≡◌, false, none}
use fq_client_py.Errors.{Exn, raise}
use fq_client_py.Floats.{Floats}
use fq_client_py.World.{World}
use fq_client_py.Reconnect.{ReconnectPolicy, exponent, ceiling, delay, exhausted}

-- If the power of the multiplier is out of range, `delay` raises before it looks at `max_delay`, and
-- draws no random number, while a policy with no bound on the attempts still asks for the attempt.
pub delay_out_of_range :
    (fl : Floats) (p : ReconnectPolicy fl) (attempt : ℕ) (e : Exn) (w : World fl)
    → p.max_attempts ≡ none
    → fl.power p.multiplier (exponent attempt) ≡ raise e
    → (exhausted fl p attempt ≡ false) × (delay fl p attempt w ≡ (raise e, w))
unfolding exhausted delay ceiling
delay_out_of_range fl p attempt e w unbounded fails = (rw unbounded, rw (delay, ceiling, fails))
