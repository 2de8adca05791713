-- ===== src/Aio/Client/Opening.antt =====
-- `open` of fq/aio/client.py, after it has failed.
use fq_client_py.Prelude.{
  ℕ, zero, suc, ◌+◌, ◌<◌, ◌≡◌, subst, sym, false, [], length, arith, if◌then◌else◌,
}
use fq_client_py.Errors.{Result, ok, raise}
use fq_client_py.Floats.{Floats}
use fq_client_py.Sync.Client.{Client, Settings}
use fq_client_py.Aio.Pool.{prefill}
use fq_client_py.Aio.Client.{factory, AsyncClient, prefilled, open_client}
use fq_client_py.Aio.Pool.Filling.{Failed, Lost, Failed-mono, Lost-mono, fill-Failed, fill-Lost}

module _ {fl : Floats} where
  module _ (cfg : Settings fl) where
    -- A client that is not open, with fewer slots than the size of its pool.
    abbrev Refusing : AsyncClient fl cfg → Type 0
    Refusing s = (s.is_opened ≡ false) × (length s.client.pool.slots < s.client.pool.size)

    -- What `open` has raised, and left such a client.
    abbrev Refused : Result (Unit {0}) × AsyncClient fl cfg → Type 0
    Refused (ok x, t) = ⊥
    Refused (raise e, t) = Refusing t

    prefilled-Refused :
        (s : AsyncClient fl cfg) (r : Result (Unit {0}) × Client fl)
        → s.is_opened ≡ false
        → length s.client.pool.slots < s.client.pool.size
        → Failed (length s.client.pool.slots) s.client.pool.size r
        → Refused (prefilled fl cfg r s)
    prefilled-Refused s (ok x, t) e h k = absurd k
    prefilled-Refused s (raise x, t) e h (most, size) = (e, omega (arith, h, most, size))

    prefill-Failed :
        (s : Client fl)
        → length s.pool.slots < s.pool.size
        → Failed (length s.pool.slots) s.pool.size (prefill fl (factory fl cfg) s)
    unfolding prefill
    prefill-Failed s h =
        Failed-mono (0 + length s.pool.slots) (length s.pool.slots) s.pool.size
          (prefill fl (factory fl cfg) s) (omega arith)
          (fill-Failed (factory fl cfg) s.pool.size [] s h)

    prefill-Lost :
        (s : Client fl)
        → length s.pool.slots ≡ s.pool.size
        → Lost (length s.pool.slots) s.pool.size (prefill fl (factory fl cfg) s)
    unfolding prefill
    prefill-Lost s h =
        Lost-mono (0 + length s.pool.slots) (length s.pool.slots) s.pool.size
          (prefill fl (factory fl cfg) s) (omega arith)
          (fill-Lost (factory fl cfg) s.pool.size [] s h)

    open-Refused : (s : AsyncClient fl cfg) → Refusing s → Refused (open_client fl cfg s)
    unfolding open_client
    open-Refused s (e, h) =
        subst
          (λ b.
            Refused
              (if b then (ok tt, s) else prefilled fl cfg (prefill fl (factory fl cfg) s.client) s))
          (sym e)
          (prefilled-Refused s (prefill fl (factory fl cfg) s.client) e h
            (prefill-Failed s.client h))

    -- The client after so many more calls of `open`.
    unfoldable pub reopened : ℕ → AsyncClient fl cfg → AsyncClient fl cfg
    reopened zero s = s
    reopened (suc n) s = reopened n (open_client fl cfg s).1

    -- A call of `open` has raised.
    abbrev pub HasRaised : {A B : Type 0} → Result A × B → Type 0
    HasRaised (ok a, b) = ⊥
    HasRaised (raise e, b) = Unit

    raised : (r : Result (Unit {0}) × AsyncClient fl cfg) → Refused r → HasRaised r × Refusing r.1
    raised (ok x, t) h = absurd h
    raised (raise e, t) h = (tt, h)

    reopened-HasRaised :
        (n : ℕ) (s : AsyncClient fl cfg)
        → Refusing s
        → HasRaised (open_client fl cfg (reopened n s))
    unfolding reopened
    reopened-HasRaised zero s h = (raised (open_client fl cfg s) (open-Refused s h)).0
    reopened-HasRaised (suc n) s h =
        reopened-HasRaised n (open_client fl cfg s).1
          (raised (open_client fl cfg s) (open-Refused s h)).1

    lost :
        (s : AsyncClient fl cfg) (r : Result (Unit {0}) × Client fl)
        → s.is_opened ≡ false
        → length s.client.pool.slots ≡ s.client.pool.size
        → HasRaised r
        → Lost (length s.client.pool.slots) s.client.pool.size r
        → HasRaised (prefilled fl cfg r s) × Refusing (prefilled fl cfg r s).1
    lost s (ok x, t) e full h k = absurd h
    lost s (raise x, t) e full h (most, size) = (tt, (e, omega (arith, full, most, size)))

    first-Refusing :
        (s : AsyncClient fl cfg)
        → s.is_opened ≡ false
        → length s.client.pool.slots ≡ s.client.pool.size
        → HasRaised (prefill fl (factory fl cfg) s.client)
        → HasRaised (open_client fl cfg s) × Refusing (open_client fl cfg s).1
    unfolding open_client
    first-Refusing s e full h =
        let filled = prefill fl (factory fl cfg) s.client in
        subst
          (λ b.
            let r = if b then (ok tt, s) else prefilled fl cfg filled s in
            HasRaised r × Refusing r.1)
          (sym e) (lost s filled e full h (prefill-Lost s.client full))

    -- `open` is called so many times, and then once more, on a client that is not open, whose pool has
    -- all of its slots, and in which `prefill` raises the first time, so that a slot is lost: the call
    -- raises, however many there were before and whatever the network does then.
    pub open_client-HasRaised :
        (s : AsyncClient fl cfg) (n : ℕ)
        → s.is_opened ≡ false
        → length s.client.pool.slots ≡ s.client.pool.size
        → HasRaised (prefill fl (factory fl cfg) s.client)
        → HasRaised (open_client fl cfg (reopened n s))
    unfolding reopened
    open_client-HasRaised s zero e full h = (first-Refusing s e full h).0
    open_client-HasRaised s (suc n) e full h =
        reopened-HasRaised n (open_client fl cfg s).1 (first-Refusing s e full h).1
