-- ===== src/Sync/Pool.antt =====
-- fq/sync/pool.py: a bounded pool of connections, handed out last in, first out.
--
-- A slot is a connection or empty. The connections are those of the parameter `C`, with their `closed`
-- and `close`. A function here is a whole call, for a thread that is alone; what several threads do to a
-- pool that they share is in Pool.Steps, where a call is several steps.
pub mod Steps
pub mod Prefill
use fq_client_py.Prelude.{
  ℕ, zero, suc, Bool, true, false, List, [], ◌∷◌, ◌++◌, Option, none, some, ltb, length, replicate,
  if◌then◌else◌,
}
use fq_client_py.Errors.{
  Exn, Result, ok, raise, value_error, fq_timeout_error, pool_closed_error, never_returns,
}

pub record Pool (C : Type 0) : Type 0 where
  pub size : ℕ
  pub slots : List (Option C)
  pub is_closed : Bool

-- How a wait for a slot ends if none comes: with a timeout, by `queue.Empty`; without one it never ends.
abbrev pub wait_end : {A : Type 0} → Option A → Exn
wait_end none = never_returns
wait_end (some left) = fq_timeout_error

module _ {C : Type 0} where
  unfoldable pub new_pool : ℕ → Result (Pool C)
  new_pool size =
      if ltb size 1
      then raise value_error
      else ok (record { size = size; slots = replicate size none; is_closed = false })

  -- `self._slots.put(slot)`
  abbrev pub put : Option C → Pool C → Pool C
  put slot p = record p { slots = slot ∷ p.slots }

  abbrev pub put_all : List C → Pool C → Pool C
  put_all [] p = p
  put_all (c ∷ cs) p = put_all cs (put (some c) p)

  abbrev pub put_empty : ℕ → Pool C → Pool C
  put_empty zero p = p
  put_empty (suc n) p = put_empty n (put none p)

  -- What the queue gives, with the end of a wait for a slot that never comes.
  abbrev pub take_from : Exn → List (Option C) → Pool C → Result (Option C) × Pool C
  take_from end [] p = (raise end, p)
  take_from end (slot ∷ slots) p = (ok slot, record p { slots = slots })

  -- `_take`, by the time that remains
  unfoldable pub take : {A : Type 0} → Option A → Pool C → Result (Option C) × Pool C
  take remaining p = take_from (wait_end remaining) p.slots p

  -- The connection of the slot, or a new one; if it cannot be made the slot goes back empty.
  unfoldable pub lease : Option C → Result C → Pool C → Result C × Pool C
  lease (some c) made p = (ok c, p)
  lease none (ok c) p = (ok c, p)
  lease none (raise e) p = (raise e, put none p)

  abbrev pub leased : Result C → Result (Option C) × Pool C → Result C × Pool C
  leased made (ok slot, p) = lease slot made p
  leased made (raise e, p) = (raise e, p)

  -- `acquire` up to its `yield`, as one call; `made` is what the factory gives if it is called.
  unfoldable pub acquire : {A : Type 0} → Option A → Result C → Pool C → Result C × Pool C
  unfolding take lease
  acquire remaining made p =
      if p.is_closed then (raise pool_closed_error, p) else leased made (take remaining p)

  -- The `finally` of `acquire`; the first component is what is closed.
  unfoldable pub release : (C → Bool) → C → Pool C → List C × Pool C
  release closed c p =
      if p.is_closed then (c ∷ [], p) else ([], put (if closed c then none else some c) p)

  -- The connections of the slots.
  abbrev pub connections : List (Option C) → List C
  connections [] = []
  connections (none ∷ slots) = connections slots
  connections (some c ∷ slots) = c ∷ connections slots

  -- `close`: the connections that it closes, and the pool.
  unfoldable pub close : Pool C → List C × Pool C
  close p =
      if p.is_closed
      then ([], p)
      else (connections p.slots, record p { slots = []; is_closed = true })

  -- The loop of `prefill`, over what the factory gives each time. `get_nowait` on an empty queue
  -- raises, which the size excludes.
  abbrev pub drop_slot : List (Option C) → List (Option C)
  drop_slot [] = []
  drop_slot (slot ∷ slots) = slots

  unfoldable pub fill : List (Result C) → List C → Pool C → (Option Exn × List C) × Pool C
  fill [] opened p = ((none, opened), p)
  fill (ok c ∷ made) opened p =
      fill made (opened ++ c ∷ []) (record p { slots = drop_slot p.slots })
  fill (raise e ∷ made) opened p = ((some e, opened), record p { slots = drop_slot p.slots })

  abbrev pub filled : (Option Exn × List C) × Pool C → Result (Unit {0}) × Pool C
  filled ((none, opened), p) = (ok tt, put_all opened p)
  filled ((some e, opened), p) = (raise e, put_empty (length opened) p)

  -- `prefill`; the connections that it closes after a failure are `opened`.
  unfoldable pub prefill : List (Result C) → Pool C → Result (Unit {0}) × Pool C
  unfolding fill
  prefill made p = filled (fill made [] p)
