-- ===== src/Errors/Raises.antt =====
-- Which exceptions a block of calls may raise: rules for a predicate on the exceptions, one for
-- each way to build a block.
use fq_client_py.Prelude.{Bool, true, false, ◌≡◌, refl, if◌then◌else◌}
use fq_client_py.Errors.{Exn, Result, ok, raise, ◌>>=◌}

-- `r` returns, or raises an exception that passes the test `allowed`.
pub record RaisesOnly {ℓ} {A : Type ℓ} (allowed : Exn → Bool) (r : Result A) : Type ℓ where
  pub at : (e : Exn) → r ≡ raise e → allowed e ≡ true

module _ {ℓ} {A : Type ℓ} {allowed : Exn → Bool} where
  pub RaisesOnly-ok : (a : A) → RaisesOnly allowed (ok a)
  RaisesOnly-ok a = record { at = λ e h. cc }

  pub RaisesOnly-raise : (e : Exn) → allowed e ≡ true → RaisesOnly {A = A} allowed (raise e)
  RaisesOnly-raise e h = record { at = λ e' k. cc }

  pub RaisesOnly-if :
      (b : Bool) (m n : Result A)
      → (b ≡ true → RaisesOnly allowed m)
      → (b ≡ false → RaisesOnly allowed n)
      → RaisesOnly allowed (if b then m else n)
  RaisesOnly-if true m n hm hn = hm refl
  RaisesOnly-if false m n hm hn = hn refl

module _ {ℓ κ} {A : Type ℓ} {B : Type κ} {allowed : Exn → Bool} where
  pub RaisesOnly-bind :
      (m : Result A) (f : A → Result B)
      → RaisesOnly allowed m
      → ((a : A) → m ≡ ok a → RaisesOnly allowed (f a))
      → RaisesOnly allowed (m >>= f)
  RaisesOnly-bind (ok a) f hm hf = hf a refl
  RaisesOnly-bind (raise e) f hm hf = record { at = λ e' h. hm.at e' cc }

pub ruleset raises_rules = (RaisesOnly-ok, RaisesOnly-raise, RaisesOnly-if, RaisesOnly-bind)

-- The same by the outcome: a value, or an exception that passes the test.
abbrev pub Ends : {A : Type 0} → (Exn → Bool) → Result A → Type 0
Ends allowed (ok a) = Unit
Ends allowed (raise e) = allowed e ≡ true

pub RaisesOnly-Ends :
    {A : Type 0} (allowed : Exn → Bool) (r : Result A) → RaisesOnly allowed r → Ends allowed r
RaisesOnly-Ends allowed (ok a) h = tt
RaisesOnly-Ends allowed (raise e) h = h.at e refl
