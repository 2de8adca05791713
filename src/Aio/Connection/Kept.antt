-- ===== src/Aio/Connection/Kept.antt =====
-- The bytes that fq/aio/connection.py reads, and those that it loses.
use fq_client_py.Prelude.{
  ℕ, zero, suc, ◌+◌, ◌≤◌, ◌≡◌, refl, ap, subst, sym, ◌∙◌, ◌⊎◌, inl, inr, Bool, Bool-cases, true,
  false, List, [], ◌∷◌, ◌++◌, append_assoc, Option, some, Bytes, ltb, length, length-append, take,
  drop, arith,
}
use fq_client_py.Errors.{Result, ok, raise, fq_connection_error}
use fq_client_py.Floats.{Floats}
use fq_client_py.World.{World, Event, done, os_error, timed_out, received}
use fq_client_py.Exec.{Exec, pure, ◌>>=◌, ◌>>◌}
use fq_client_py.Sync.Connection.{Connection, Session, next}
use fq_client_py.Aio.Connection.{buffer_of, keep, more_bytes, read_from, read_exactly}

-- The bytes that a script delivers.
abbrev pub delivered : List Event → Bytes
delivered [] = []
delivered (received bytes ∷ es) = bytes ++ delivered es
delivered (done ∷ es) = delivered es
delivered (os_error ∷ es) = delivered es
delivered (timed_out ∷ es) = delivered es

append-take-drop : {A : Type 0} (n : ℕ) (xs : List A) → take n xs ++ drop n xs ≡ xs
append-take-drop zero xs = refl
append-take-drop (suc n) [] = refl
append-take-drop (suc n) (x ∷ xs) = ap (λ ys. x ∷ ys) (append-take-drop n xs)

length-take : {A : Type 0} (n : ℕ) (xs : List A) → n ≤ length xs → length (take n xs) ≡ n
length-take zero xs h = refl
length-take (suc n) [] h = absurd (omega (arith, h))
length-take (suc n) (x ∷ xs) h = ap suc (length-take n xs (omega (arith, h)))

module _ {fl : Floats} where
  -- An open connection with bytes in its buffer, and a script.
  abbrev pub buffered : Connection fl → World fl → Bytes → List Event → Session fl
  buffered c w buffer es = record {
    conn = record c { sock = some buffer };
    world = record w { events = es };
  }

  -- What is in the buffer and what is to come.
  abbrev pub to_read : Session fl → Bytes
  to_read s = buffer_of fl s.conn.sock ++ delivered s.world.events

  -- A read of a number of bytes has ended, where `before` was to be read.
  abbrev pub Conserved : ℕ → Bytes → Result Bytes × Session fl → Type 0
  Conserved size before (ok bytes, t) =
      (length bytes ≡ size)
      × (bytes ++ to_read t ≡ before)
      × (buffer : Bytes) × (t.conn.sock ≡ some buffer)
  Conserved size before (raise e, t) = (to_read t ≡ before) ⊎ (e ≡ fq_connection_error)

  module _ (c : Connection fl) (w : World fl) where
    all_there :
        (size : ℕ) (buffer rest : Bytes)
        → size ≤ length buffer
        → (length (take size buffer) ≡ size)
          × (take size buffer ++ (drop size buffer ++ rest) ≡ buffer ++ rest)
          × (left : Bytes) × (some (drop size buffer) ≡ some left)
    all_there size buffer rest h = (
      length-take size buffer h,
      sym (append_assoc (take size buffer) (drop size buffer) rest)
          ∙ ap (λ xs. xs ++ rest) (append-take-drop size buffer),
      drop size buffer,
      refl,
    )

    -- A round of the loop.
    abbrev waiting : (fuel size : ℕ) → Bytes → Exec (Session fl) Bytes
    waiting fuel size buffer = do
      outcome ← next fl
      buffer' ← more_bytes fl buffer outcome
      read_from fl fuel size buffer'

    abbrev rounds : (fuel size : ℕ) → Bytes → Bool → Exec (Session fl) Bytes
    rounds fuel size buffer false = do keep fl (drop size buffer); pure (take size buffer)
    rounds fuel size buffer true = waiting fuel size buffer

    waiting-Conserved :
        (fuel size : ℕ) (buffer : Bytes) (es : List Event)
        → size ≤ length buffer + suc fuel
        → ((buffer' : Bytes) (es' : List Event)
            → size ≤ length buffer' + fuel
            → Conserved size
                (buffer' ++ delivered es')
                (read_from fl fuel size buffer' (buffered c w buffer' es')))
        → Conserved size
            (buffer ++ delivered es)
            (waiting fuel size buffer (buffered c w buffer es))
    unfolding next more_bytes
    waiting-Conserved fuel size buffer [] h later = inr refl
    waiting-Conserved fuel size buffer (done ∷ es) h later = inr refl
    waiting-Conserved fuel size buffer (os_error ∷ es) h later = inr refl
    waiting-Conserved fuel size buffer (timed_out ∷ es) h later = inl refl
    waiting-Conserved fuel size buffer (received [] ∷ es) h later = inr refl
    waiting-Conserved fuel size buffer (received (b ∷ bytes) ∷ es) h later =
        subst
          (λ before.
            Conserved size before (
              read_from fl fuel size (buffer ++ b ∷ bytes) (buffered c w (buffer ++ b ∷ bytes) es)))
          (append_assoc buffer (b ∷ bytes) (delivered es))
          (later (buffer ++ b ∷ bytes) es (omega (arith, h, length-append buffer (b ∷ bytes))))

    read_from-Conserved :
        (fuel size : ℕ) (buffer : Bytes) (es : List Event)
        → size ≤ length buffer + fuel
        → Conserved size
            (buffer ++ delivered es)
            (read_from fl fuel size buffer (buffered c w buffer es))
    unfolding read_from
    read_from-Conserved zero size buffer es h =
        all_there size buffer (delivered es) (omega (arith, h))
    read_from-Conserved (suc fuel) size buffer es h =
        let round = λ (b : Bool). rounds fuel size buffer b (buffered c w buffer es) in
        let before = buffer ++ delivered es in
        elim (Bool-cases (ltb (length buffer) size)) [
          | inr full ↦
              subst (λ b. Conserved size before (round b)) (sym full)
                (all_there size buffer (delivered es) (ground arith))
          | inl short ↦
              subst (λ b. Conserved size before (round b)) (sym short)
                (waiting-Conserved fuel size buffer es h
                  (λ buffer' es' k. read_from-Conserved fuel size buffer' es' k))
        ]

    read_exactly-Conserved :
        (size : ℕ) (buffer : Bytes) (es : List Event)
        → Conserved size (buffer ++ delivered es) (read_exactly fl size (buffered c w buffer es))
    unfolding read_exactly
    read_exactly-Conserved size buffer es = read_from-Conserved size size buffer es (omega arith)

  -- However the bytes of an open connection are cut into chunks, and however the waits for them end:
  -- they are all there, or the exception is FQConnectionError.
  pub open_read-Conserved :
      (size : ℕ) (s : Session fl) (buffer : Bytes)
      → s.conn.sock ≡ some buffer
      → Conserved size (to_read s) (read_exactly fl size s)
  open_read-Conserved size s buffer e =
      let at : Option Bytes → Session fl =
        (λ sock. record s { conn = record s.conn { sock = sock } }) in
      subst (λ sock. Conserved size (to_read (at sock)) (read_exactly fl size (at sock))) (sym e)
        (read_exactly-Conserved s.conn s.world size buffer s.world.events)
