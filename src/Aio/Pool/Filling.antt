-- ===== src/Aio/Pool/Filling.antt =====
-- The slots of a pool after the loop of `prefill` in fq/aio/pool.py.
use fq_client_py.Prelude.{
  ℕ, zero, suc, ◌+◌, ◌≤◌, ◌<◌, ◌≡◌, refl, ap, List, [], ◌∷◌, ◌++◌, Option, length, length-append,
  arith,
}
use fq_client_py.Errors.{Result, ok, raise, queue_empty}
use fq_client_py.Exec.{Exec}
use fq_client_py.Floats.{Floats}
use fq_client_py.World.{World}
use fq_client_py.Sync.Connection.{Connection}
use fq_client_py.Sync.Pool.Prefill.{length-put_empty, size-put_empty}
use fq_client_py.Sync.Client.{Client}
use fq_client_py.Aio.Pool.{got, get_nowait, restored, opened_next, slot_taken, fill}

module _ {fl : Floats} where
  -- A loop of `prefill` that has raised, and left at most so many slots to a pool of the same size.
  abbrev pub Failed : ℕ → ℕ → Result (Unit {0}) × Client fl → Type 0
  Failed most size (ok x, t) = ⊥
  Failed most size (raise e, t) = (length t.pool.slots ≤ most) × (t.pool.size ≡ size)

  -- The same if it has raised, with fewer slots than that.
  abbrev pub Lost : ℕ → ℕ → Result (Unit {0}) × Client fl → Type 0
  Lost most size (ok x, t) = Unit
  Lost most size (raise e, t) = (length t.pool.slots < most) × (t.pool.size ≡ size)

  pub Failed-mono :
      (m n size : ℕ) (r : Result (Unit {0}) × Client fl) → m ≤ n → Failed m size r → Failed n size r
  Failed-mono m n size (ok x, t) h k = k
  Failed-mono m n size (raise e, t) h (k, same) = (omega (arith, h, k), same)

  pub Lost-mono :
      (m n size : ℕ) (r : Result (Unit {0}) × Client fl) → m ≤ n → Lost m size r → Lost n size r
  Lost-mono m n size (ok x, t) h k = tt
  Lost-mono m n size (raise e, t) h (k, same) = (omega (arith, h, k), same)

  module _ (make : Exec (World fl) (Connection fl)) where
    restored-Failed :
        (opened : List (Connection fl)) (s : Client fl) (most : ℕ)
        → length opened + length s.pool.slots ≤ most
        → (length (restored fl make opened s).pool.slots ≤ most)
          × ((restored fl make opened s).pool.size ≡ s.pool.size)
    restored-Failed opened s most h = (
      omega (arith, h, length-put_empty (length opened) s.pool),
      size-put_empty (length opened) s.pool,
    )

    -- A round that has taken a slot, and made a connection for it or not.
    next-Failed :
        (n : ℕ) (opened : List (Connection fl))
        → ((opened' : List (Connection fl)) (s : Client fl)
            → length s.pool.slots < n
            → Failed (length opened' + length s.pool.slots) s.pool.size (fill fl make n opened' s))
        → (s : Client fl) (r : Result (Connection fl) × World fl) → length s.pool.slots < n
        → Failed
            (suc (length opened + length s.pool.slots))
            s.pool.size
            (opened_next fl make (fill fl make n) opened s r)
    next-Failed n opened later s (raise e, w) h =
        restored-Failed opened (record s { world = w }) _ (omega arith)
    next-Failed n opened later s (ok c, w) h =
        Failed-mono _ _ s.pool.size _ (omega (arith, length-append opened (c ∷ [])))
          (later (opened ++ c ∷ []) (record s { world = w }) h)

    taken-Failed :
        (n : ℕ) (opened : List (Connection fl))
        → ((opened' : List (Connection fl)) (s : Client fl)
            → length s.pool.slots < n
            → Failed (length opened' + length s.pool.slots) s.pool.size (fill fl make n opened' s))
        → (slots : List (Option (Connection fl))) (s : Client fl) → s.pool.slots ≡ slots
        → length slots < suc n
        → Failed
            (length opened + length slots)
            s.pool.size
            (slot_taken fl make (fill fl make n) opened (got fl (raise queue_empty) slots s))
    taken-Failed n opened later [] s e h =
        restored-Failed opened s (length opened + 0) (omega (arith, ap length e))
    taken-Failed n opened later (slot ∷ slots) s e h =
        let left : Client fl = record s { pool = record s.pool { slots = slots } } in
        Failed-mono (suc (length opened + length slots)) (length opened + suc (length slots))
          s.pool.size (opened_next fl make (fill fl make n) opened left (make s.world))
          (omega arith) (next-Failed n opened later left (make s.world) (omega (arith, h)))

    pub fill-Failed :
        (n : ℕ) (opened : List (Connection fl)) (s : Client fl)
        → length s.pool.slots < n
        → Failed (length opened + length s.pool.slots) s.pool.size (fill fl make n opened s)
    unfolding fill get_nowait
    fill-Failed zero opened s h = absurd (omega (arith, h))
    fill-Failed (suc n) opened s h = taken-Failed n opened (fill-Failed n) s.pool.slots s refl h

    next-Lost :
        (n : ℕ) (opened : List (Connection fl))
        → ((opened' : List (Connection fl)) (s : Client fl)
            → length s.pool.slots ≡ n
            → Lost (length opened' + length s.pool.slots) s.pool.size (fill fl make n opened' s))
        → (s : Client fl) (r : Result (Connection fl) × World fl) → length s.pool.slots ≡ n
        → Lost
            (suc (length opened + length s.pool.slots))
            s.pool.size
            (opened_next fl make (fill fl make n) opened s r)
    next-Lost n opened later s (raise e, w) h =
        let (most, size) =
          restored-Failed opened (record s { world = w }) (length opened + length s.pool.slots)
            (omega arith) in
        (omega (arith, most), size)
    next-Lost n opened later s (ok c, w) h =
        Lost-mono _ _ s.pool.size _ (omega (arith, length-append opened (c ∷ [])))
          (later (opened ++ c ∷ []) (record s { world = w }) h)

    taken-Lost :
        (n : ℕ) (opened : List (Connection fl))
        → ((opened' : List (Connection fl)) (s : Client fl)
            → length s.pool.slots ≡ n
            → Lost (length opened' + length s.pool.slots) s.pool.size (fill fl make n opened' s))
        → (slots : List (Option (Connection fl))) (s : Client fl) → s.pool.slots ≡ slots
        → length slots ≡ suc n
        → Lost
            (length opened + length slots)
            s.pool.size
            (slot_taken fl make (fill fl make n) opened (got fl (raise queue_empty) slots s))
    taken-Lost n opened later [] s e h = absurd (omega (arith, h))
    taken-Lost n opened later (slot ∷ slots) s e h =
        let left : Client fl = record s { pool = record s.pool { slots = slots } } in
        Lost-mono (suc (length opened + length slots)) (length opened + suc (length slots))
          s.pool.size (opened_next fl make (fill fl make n) opened left (make s.world))
          (omega arith) (next-Lost n opened later left (make s.world) (omega (arith, h)))

    pub fill-Lost :
        (n : ℕ) (opened : List (Connection fl)) (s : Client fl)
        → length s.pool.slots ≡ n
        → Lost (length opened + length s.pool.slots) s.pool.size (fill fl make n opened s)
    unfolding fill get_nowait
    fill-Lost zero opened s h = tt
    fill-Lost (suc n) opened s h = taken-Lost n opened (fill-Lost n) s.pool.slots s refl h
