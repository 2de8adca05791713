-- ===== src/Exec/Inversion.antt =====
-- A block that ends with a result went through each of its steps.
use fq_client_py.Prelude.{◌≡◌, refl, ap, ap₂, ◌⊎◌, inl, inr}
use fq_client_py.Errors.{Exn, Result, ok, raise}
use fq_client_py.Exec.{Exec, continue, ◌>>=◌}

module _ {ℓ} {W T U : Type ℓ} (rest : T → Exec W U) {last : W} where
  continue-eq-ok :
      (r : Result T × W) {u : U}
      → continue rest r ≡ (ok u, last)
      → (t : T) × (now : W) × (r ≡ (ok t, now)) × (rest t now ≡ (ok u, last))
  continue-eq-ok (ok t, now) returns = (t, now, refl, returns)
  continue-eq-ok (raise x, now) returns = absurd (cc (ap (λ r. r.0) returns))

  pub bind-eq-ok :
      (call : Exec W T) (first : W) {u : U}
      → (call >>= rest) first ≡ (ok u, last)
      → (t : T) × (now : W) × (call first ≡ (ok t, now)) × (rest t now ≡ (ok u, last))
  bind-eq-ok call first returns = continue-eq-ok (call first) returns

  continue-eq-raise :
      (r : Result T × W) {x : Exn}
      → continue rest r ≡ (raise x, last)
      → (r ≡ (raise x, last))
        ⊎ ((t : T) × (now : W) × (r ≡ (ok t, now)) × (rest t now ≡ (raise x, last)))
  continue-eq-raise (ok t, now) fails = inr (t, now, refl, fails)
  continue-eq-raise (raise x', now) fails =
      inl (ap₂ (λ e w. (raise e, w)) (cc (ap (λ r. r.0) fails)) (ap (λ r. r.1) fails))

  -- A block that raises does so in one of its steps.
  pub bind-eq-raise :
      (call : Exec W T) (first : W) {x : Exn}
      → (call >>= rest) first ≡ (raise x, last)
      → (call first ≡ (raise x, last))
        ⊎ ((t : T) × (now : W) × (call first ≡ (ok t, now)) × (rest t now ≡ (raise x, last)))
  bind-eq-raise call first fails = continue-eq-raise (call first) fails

-- To split on how a call ends, and keep the equation.
pub ends-cases {ℓ} :
    {W T : Type ℓ} (r : Result T × W)
    → ((t : T) × (now : W) × (r ≡ (ok t, now))) ⊎ ((x : Exn) × (now : W) × (r ≡ (raise x, now)))
ends-cases (ok t, now) = inl (t, now, refl)
ends-cases (raise x, now) = inr (x, now, refl)

pub continue_assoc {ℓ} :
    {W T U V : Type ℓ} (f : T → Exec W U) (g : U → Exec W V) (r : Result T × W)
    → continue g (continue f r) ≡ continue (λ t. f t >>= g) r
continue_assoc f g (ok t, now) = refl
continue_assoc f g (raise x, now) = refl
