-- ===== src/Exec.antt =====
-- Methods that change the state of an object or of the world and may raise. What was changed before
-- a raise stays changed, so the state comes back beside the exception too.
pub mod Inversion
use fq_client_py.Prelude.{Bool, true, false}
use fq_client_py.Errors.{Exn, Result, ok, raise}

abbrev pub Exec {ℓ} : (World : Type ℓ) (T : Type ℓ) → Type ℓ
Exec World T = World → Result T × World

module _ {ℓ} {W T : Type ℓ} where
  abbrev pub throw : Exn → Exec W T
  throw x now = (raise x, now)

  abbrev pub pure : T → Exec W T
  pure t now = (ok t, now)

  abbrev pub lift : Result T → Exec W T
  lift outcome now = (outcome, now)

module _ {ℓ} {W T U : Type ℓ} where
  abbrev pub continue : (T → Exec W U) → Result T × W → Result U × W
  continue rest (raise x, now) = (raise x, now)
  continue rest (ok t, now) = rest t now

  infixl 5 ◌>>=◌ ◌>>◌
  abbrev pub ◌>>=◌ : Exec W T → (T → Exec W U) → Exec W U
  ◌>>=◌ call rest now = continue rest (call now)

  abbrev pub ◌>>◌ : Exec W T → Exec W U → Exec W U
  call >> rest = call >>= λ t. rest

module _ {ℓ} {W T : Type ℓ} where
  abbrev pub handled : (Exn → Exec W T) → Result T × W → Result T × W
  handled handler (raise x, now) = handler x now
  handled handler (ok t, now) = (ok t, now)

  -- `try: call except ... as x: handler(x)`; the handler raises again what it does not catch.
  abbrev pub catch : Exec W T → (Exn → Exec W T) → Exec W T
  catch call handler now = handled handler (call now)

  abbrev ended : Exec W (Unit {ℓ}) → Result T × W → Result T × W
  ended last (outcome, now) = continue (λ done now'. (outcome, now')) (last now)

  -- `try: call finally: last`; an exception of `last` takes the place of the result.
  abbrev pub finally : Exec W T → Exec W (Unit {ℓ}) → Exec W T
  finally call last now = ended last (call now)
