-- ===== src/Aio/Pool.antt =====
-- fq/aio/pool.py: a bounded pool of asyncio connections, handed out last in, first out, in a client with
-- what it meets outside. `factory` opens a connection. A wait for a slot that finds none ends with its
-- timeout, or never without one.
pub mod Filling
use fq_client_py.Prelude.{
  ℕ, zero, suc, true, List, [], ◌∷◌, ◌++◌, Option, none, some, length, if◌then◌else◌,
}
use fq_client_py.Errors.{Result, ok, raise, fq_timeout_error, pool_closed_error, queue_empty}
use fq_client_py.Exec.{Exec, throw, ◌>>=◌}
use fq_client_py.Floats.{Floats}
use fq_client_py.World.{World}
use fq_client_py.Reconnect.{Deadline, remaining}
use fq_client_py.Sync.Connection.{Connection, Session, closed}
use fq_client_py.Sync.Pool.{Pool, wait_end, put_all, put_empty, connections}
use fq_client_py.Sync.Client.{Client, world_of_client}

module _ (fl : Floats) where
  -- `put_nowait`
  abbrev pub put_nowait : Option (Connection fl) → Client fl → Client fl
  put_nowait slot s = record s { pool = record s.pool { slots = slot ∷ s.pool.slots } }

  -- What `get` and `get_nowait` find, with the exception of an empty queue.
  abbrev pub got :
      Result (Option (Connection fl))
      → List (Option (Connection fl))
      → Exec (Client fl) (Option (Connection fl))
  got empty [] s = (empty, s)
  got empty (slot ∷ slots) s = (ok slot, record s { pool = record s.pool { slots = slots } })

  unfoldable pub get_nowait : Exec (Client fl) (Option (Connection fl))
  get_nowait s = got (raise queue_empty) s.pool.slots s

  -- `_take`
  unfoldable pub take : Deadline fl → Exec (Client fl) (Option (Connection fl))
  take d = do
    left ← world_of_client fl (remaining fl d)
    (λ s. got (raise (wait_end left)) s.pool.slots s)

  unfoldable pub release : Connection fl → Client fl → Client fl
  release c s = if s.pool.is_closed then s else put_nowait (if closed fl c then none else some c) s

  abbrev pub given_back : {A : Type 0} → Result A × Session fl → Client fl → Result A × Client fl
  given_back (r, t) s = (r, release t.conn (record s { world = t.world }))

  -- The block under `async with self._pool.acquire(...)`, and its end
  unfoldable pub on_lease : {A : Type 0} → Connection fl → Exec (Session fl) A → Exec (Client fl) A
  unfolding release
  on_lease c m s = given_back (m (record { conn = c; world = s.world })) s

  -- `aclose`: the connections that it closes, and the pool.
  unfoldable pub aclose : Pool (Connection fl) → List (Connection fl) × Pool (Connection fl)
  aclose p =
      if p.is_closed
      then ([], p)
      else (connections p.slots, record p { slots = []; is_closed = true })

  module _ (factory : Exec (World fl) (Connection fl)) where
    abbrev pub made_for :
        Result (Connection fl) × World fl → Client fl → Result (Connection fl) × Client fl
    made_for (ok c, w) s = (ok c, record s { world = w })
    made_for (raise e, w) s = (raise e, put_nowait none (record s { world = w }))

    abbrev pub slot_or_new : Option (Connection fl) → Exec (Client fl) (Connection fl)
    slot_or_new (some c) s = (ok c, s)
    slot_or_new none s = made_for (factory s.world) s

    -- `acquire` up to its `yield`
    unfoldable pub acquire : Deadline fl → Exec (Client fl) (Connection fl)
    unfolding take
    acquire d s =
        (if s.pool.is_closed then throw pool_closed_error else do slot ← take d; slot_or_new slot) s

    -- The handler of `prefill`: an empty slot for each connection that was opened.
    abbrev pub restored : List (Connection fl) → Client fl → Client fl
    restored opened s = record s { pool = put_empty (length opened) s.pool }

    abbrev pub opened_next :
        (List (Connection fl) → Exec (Client fl) (Unit {0}))
        → List (Connection fl)
        → Client fl
        → Result (Connection fl) × World fl
        → Result (Unit {0}) × Client fl
    opened_next rest opened s (ok c, w) = rest (opened ++ c ∷ []) (record s { world = w })
    opened_next rest opened s (raise e, w) = (raise e, restored opened (record s { world = w }))

    abbrev pub slot_taken :
        (List (Connection fl) → Exec (Client fl) (Unit {0}))
        → List (Connection fl)
        → Result (Option (Connection fl)) × Client fl
        → Result (Unit {0}) × Client fl
    slot_taken rest opened (ok slot, s) = opened_next rest opened s (factory s.world)
    slot_taken rest opened (raise e, s) = (raise e, restored opened s)

    -- The loop of `prefill`, and what is behind it
    unfoldable pub fill : ℕ → List (Connection fl) → Exec (Client fl) (Unit {0})
    unfolding get_nowait
    fill zero opened s = (ok tt, record s { pool = put_all opened s.pool })
    fill (suc n) opened s = slot_taken (fill n) opened (get_nowait s)

    unfoldable pub prefill : Exec (Client fl) (Unit {0})
    unfolding fill
    prefill s = fill s.pool.size [] s
