-- ===== src/Reconnect.antt =====
-- fq/_reconnect.py: the delays between attempts, and the deadline of a call.
pub mod Delay
pub mod Due
use fq_client_py.Prelude.{
  ℕ, zero, suc, Bool, true, false, Option, none, some, ℤ, pos, negsuc, ltb, if◌then◌else◌,
}
use fq_client_py.Errors.{Result, ok, raise, fq_timeout_error}
use fq_client_py.Exec.{Exec, pure, throw, ◌>>=◌, ◌>>◌}
use fq_client_py.Floats.{Floats, min_float, max_float}
use fq_client_py.World.{World}

-- `attempt > bound`
abbrev pub passes : ℕ → ℤ → Bool
passes attempt (pos bound) = ltb bound attempt
passes attempt (negsuc bound) = true

-- `attempt - 1`
abbrev pub exponent : ℕ → ℤ
exponent zero = negsuc 0
exponent (suc n) = pos n

module _ (fl : Floats) where
  open fl use {F, zero_float, add, sub, mul, less_eq, power}

  pub record ReconnectPolicy : Type 0 where
    pub initial : F
    pub max_delay : F
    pub multiplier : F
    pub max_attempts : Option ℤ

  -- The ceiling of a delay, computed before the random number is drawn.
  unfoldable pub ceiling : ReconnectPolicy → ℕ → Result F
  ceiling p attempt = elim (power p.multiplier (exponent attempt)) [
    | ok factor ↦ ok (min_float fl p.max_delay (mul p.initial factor))
    | raise e ↦ raise e
  ]

  -- `random.random()`
  unfoldable pub draw : Exec (World fl) F
  draw w = (ok (w.random w.draws), record w { draws = suc w.draws })

  unfoldable pub delay : ReconnectPolicy → ℕ → Exec (World fl) F
  unfolding ceiling draw
  delay p attempt = do top ← (λ w. (ceiling p attempt, w)); r ← draw; pure (mul r top)

  unfoldable pub exhausted : ReconnectPolicy → ℕ → Bool
  exhausted p attempt = elim p.max_attempts [ none ↦ false | some bound ↦ passes attempt bound ]

  pub record Deadline : Type 0 where
    pub deadline : Option F

  -- `time.monotonic()`
  unfoldable pub clock : Exec (World fl) F
  clock w = (ok (w.time w.reads), record w { reads = suc w.reads })

  -- `Deadline(timeout)`: the clock is read only if there is a timeout.
  unfoldable pub new_deadline : Option F → Exec (World fl) Deadline
  unfolding clock
  new_deadline none = pure (record { deadline = none })
  new_deadline (some timeout) = do now ← clock; pure (record { deadline = some (add now timeout) })

  abbrev pub remaining_of : Option F → Exec (World fl) (Option F)
  remaining_of none = pure none
  remaining_of (some at) = do now ← clock; pure (some (sub at now))

  unfoldable pub remaining : Deadline → Exec (World fl) (Option F)
  unfolding clock
  remaining d = remaining_of d.deadline

  abbrev pub is_over : Option F → Bool
  is_over none = false
  is_over (some left) = less_eq left zero_float

  unfoldable pub expired : Deadline → Exec (World fl) Bool
  unfolding remaining
  expired d = do left ← remaining d; pure (is_over left)

  unfoldable pub check : Deadline → Exec (World fl) (Unit {0})
  unfolding expired
  check d = do over ← expired d; if over then throw fq_timeout_error else pure tt

  abbrev pub trim : F → Option F → F
  trim seconds none = seconds
  trim seconds (some left) = min_float fl seconds (max_float fl left zero_float)

  unfoldable pub clamp : Deadline → F → Exec (World fl) F
  unfolding remaining
  clamp d seconds = do left ← remaining d; pure (trim seconds left)
