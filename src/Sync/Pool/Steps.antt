-- ===== src/Sync/Pool/Steps.antt =====
-- The threads that share a pool of fq/sync/pool.py. A step is one access to the pool, and any thread may
-- be next: `acquire` is a test of the flag, a take of a slot and, with no connection in it, a call of the
-- factory; `_release` is a test and a `put`; `close` sets the flag and then takes slot after slot. So a
-- pool may be closed between any two steps of another thread.
use fq_client_py.Prelude.{
  ℕ, suc, ◌+◌, ◌≤◌, ◌≡◌, refl, ap, sym, subst, ◌∙◌, true, false, Bool, List, [], ◌∷◌, Option, none,
  some, length, arith,
}
use fq_client_py.Errors.{Result, ok, raise}
use fq_client_py.Sync.Pool.{Pool, put, take, lease, take_from, wait_end}

-- The pool, and how many threads are at which place.
pub record Shared (C : Type 0) : Type 0 where
  pub pool : Pool C
  -- they have taken an empty slot, and the factory is at work
  pub making : ℕ
  -- they hold a connection
  pub held : ℕ
  -- they have found the pool open in `_release`, and will put their connection back
  pub returning : ℕ

module _ {C : Type 0} where
  abbrev pub taken : Option C → Pool C → Shared C → Shared C
  taken none p s = record s { pool = p; making = suc s.making }
  taken (some c) p s = record s { pool = p; held = suc s.held }

  abbrev pub leased_by : Result C × Pool C → Shared C → Shared C
  leased_by (ok c, p) s = record s { pool = p; held = suc s.held }
  leased_by (raise e, p) s = record s { pool = p }

  -- One step of one thread. A thread that takes a slot has found the pool open before, at any time; the
  -- thread in `close` takes slots only after it has set the flag.
  pub data Step : Shared C → Shared C → Type 0 where
    takes :
        {s : Shared C} (slot : Option C) (p : Pool C)
        → take {A = Unit {0}} none s.pool ≡ (ok slot, p)
        → Step s (taken slot p s)
    makes :
        {s : Shared C} (n : ℕ) (made : Result C)
        → s.making ≡ suc n
        → Step s (leased_by (lease none made s.pool) (record s { making = n }))
    drops :
        {s : Shared C} (n : ℕ)
        → s.held ≡ suc n
        → s.pool.is_closed ≡ true
        → Step s (record s { held = n })
    passes :
        {s : Shared C} (n : ℕ)
        → s.held ≡ suc n
        → s.pool.is_closed ≡ false
        → Step s (record s { held = n; returning = suc s.returning })
    returns :
        {s : Shared C} (n : ℕ) (slot : Option C)
        → s.returning ≡ suc n
        → Step s (record s { pool = put slot s.pool; returning = n })
    marks : {s : Shared C} → Step s (record s { pool = record s.pool { is_closed = true } })
    drains :
        {s : Shared C} (slot : Option C) (p : Pool C)
        → s.pool.is_closed ≡ true
        → take {A = Unit {0}} none s.pool ≡ (ok slot, p)
        → Step s (record s { pool = p })

  pub data Steps : Shared C → Shared C → Type 0 where
    stop : {s : Shared C} → Steps s s
    step : {s t u : Shared C} → Step s t → Steps t u → Steps s u

  -- The slots, and those that threads have taken and may still give back.
  abbrev pub in_use : Shared C → ℕ
  in_use s = s.making + s.held + s.returning

  abbrev Balance : Bool → Shared C → Type 0
  Balance true s = length s.pool.slots + in_use s ≤ s.pool.size
  Balance false s = length s.pool.slots + in_use s ≡ s.pool.size

  -- While the pool is open, they are as many as its size; then they are not more.
  abbrev pub Balanced : Shared C → Type 0
  Balanced s = Balance s.pool.is_closed s

  -- A step that keeps the flag and the size, and the sum.
  even-Balanced :
      (b : Bool) (s t : Shared C)
      → t.pool.size ≡ s.pool.size
      → length t.pool.slots + in_use t ≡ length s.pool.slots + in_use s
      → Balance b s
      → Balance b t
  even-Balanced true s t size sum h = omega (arith, size, sum, h)
  even-Balanced false s t size sum h = omega (arith, size, sum, h)

  least : (b : Bool) (s : Shared C) → Balance b s → length s.pool.slots + in_use s ≤ s.pool.size
  least true s h = h
  least false s h = omega (arith, h)

  take-slots :
      (slots : List (Option C)) (p : Pool C) (slot : Option C) (q : Pool C)
      → p.slots ≡ slots
      → take_from (wait_end {A = Unit {0}} none) slots p ≡ (ok slot, q)
      → (length p.slots ≡ suc (length q.slots)) × (q.size ≡ p.size) × (q.is_closed ≡ p.is_closed)
  take-slots [] p slot q e h = absurd (cc (ap (λ r. r.0) h))
  take-slots (x ∷ slots) p slot q e h =
      let rest : record p { slots = slots } ≡ q = ap (λ r. r.1) h in
      let same : slots ≡ q.slots = ap (λ p. p.slots) rest in
      (
        omega (arith, ap length e, ap length same),
        sym (ap (λ p. p.size) rest),
        sym (ap (λ p. p.is_closed) rest),
      )

  taken-Balanced :
      (slot : Option C) (p : Pool C) (s : Shared C)
      → (length s.pool.slots ≡ suc (length p.slots))
        × (p.size ≡ s.pool.size)
        × (p.is_closed ≡ s.pool.is_closed)
      → Balanced s
      → Balanced (taken slot p s) × ((taken slot p s).pool.size ≡ s.pool.size)
  taken-Balanced none p s (fewer, size, flag) h = (
    subst (λ b. Balance b (taken none p s)) (sym flag)
        (even-Balanced s.pool.is_closed s (taken none p s) size (omega (arith, fewer)) h),
    size,
  )
  taken-Balanced (some c) p s (fewer, size, flag) h = (
    subst (λ b. Balance b (taken (some c) p s)) (sym flag)
        (even-Balanced s.pool.is_closed s (taken (some c) p s) size (omega (arith, fewer)) h),
    size,
  )

  drained-Balanced :
      (p : Pool C) (s : Shared C)
      → s.pool.is_closed ≡ true
      → (length s.pool.slots ≡ suc (length p.slots))
        × (p.size ≡ s.pool.size)
        × (p.is_closed ≡ s.pool.is_closed)
      → Balanced s
      → Balanced (record s { pool = p }) × (p.size ≡ s.pool.size)
  drained-Balanced p s closed (fewer, size, flag) h =
      let t : Shared C = record s { pool = p } in
      let most = least s.pool.is_closed s h in
      (subst (λ b. Balance b t) (sym (flag ∙ closed)) (omega (arith, fewer, size, most)), size)

  made-Balanced :
      (n : ℕ) (made : Result C) (s : Shared C)
      → s.making ≡ suc n
      → Balanced s
      → Balanced (leased_by (lease none made s.pool) (record s { making = n }))
        × ((leased_by (lease none made s.pool) (record s { making = n })).pool.size ≡ s.pool.size)
  unfolding lease
  made-Balanced n (ok c) s e h = (
    even-Balanced s.pool.is_closed s (record s { making = n; held = suc s.held }) refl
        (omega (arith, e)) h,
    refl,
  )
  made-Balanced n (raise x) s e h = (
    even-Balanced s.pool.is_closed s (record s { making = n; pool = put none s.pool }) refl
        (omega (arith, e)) h,
    refl,
  )

  Step-Balanced :
      {s t : Shared C} → Step s t → Balanced s → Balanced t × (t.pool.size ≡ s.pool.size)
  unfolding take
  Step-Balanced {s} (takes slot p e) h =
      taken-Balanced slot p s (take-slots s.pool.slots s.pool slot p refl e) h
  Step-Balanced {s} (makes n made e) h = made-Balanced n made s e h
  Step-Balanced {s} (drops n e closed) h =
      let t : Shared C = record s { held = n } in
      let most = least s.pool.is_closed s h in
      (subst (λ b. Balance b t) (sym closed) (omega (arith, e, most)), refl)
  Step-Balanced {s} (passes n e opened) h = (
    even-Balanced s.pool.is_closed s (record s { held = n; returning = suc s.returning }) refl
        (omega (arith, e)) h,
    refl,
  )
  Step-Balanced {s} (returns n slot e) h = (
    even-Balanced s.pool.is_closed s (record s { pool = put slot s.pool; returning = n }) refl
        (omega (arith, e)) h,
    refl,
  )
  Step-Balanced {s} marks h = (least s.pool.is_closed s h, refl)
  Step-Balanced {s} (drains slot p closed e) h =
      drained-Balanced p s closed (take-slots s.pool.slots s.pool slot p refl e) h

  -- Whatever the threads do, in whatever order their steps come, also with `close` between the steps of
  -- another call: if at first the slots, and the threads that make, hold or give back a connection, are
  -- as many as the size of an open pool, then they are so for as long as it is open, and never more
  -- after. So a `put` finds room in the queue. The size does not change.
  pub Steps-Balanced :
      {s t : Shared C} → Steps s t → Balanced s → Balanced t × (t.pool.size ≡ s.pool.size)
  Steps-Balanced stop h = (h, refl)
  Steps-Balanced (step first rest) h =
      let (h', same) = Step-Balanced first h in
      let (h'', same') = Steps-Balanced rest h' in (h'', same' ∙ same)
