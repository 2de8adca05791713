-- ===== src/Tests/Pools.antt =====
-- fq/sync/pool.py and fq/_reconnect.py at concrete inputs. A connection is a number here, and 9 is closed.
use fq_client_py.Prelude.{
  ℕ, suc, ◌≡◌, refl, true, false, [], ◌∷◌, none, some, length, ◌==◌, arith, Bool,
}
use fq_client_py.Errors.{ok, raise, fq_connection_error}
use fq_client_py.Reconnect.{clamp}
use fq_client_py.Reconnect.Due.{Ordered, Clamped, clamp-Clamped}
use fq_client_py.Sync.Pool.{Pool, new_pool, acquire, take, lease, release, prefill}
use fq_client_py.Sync.Pool.Steps.{
  Shared, Steps, stop, step, takes, marks, drains, makes, Balanced, Steps-Balanced,
}
use fq_client_py.Sync.Pool.Prefill.{prefill_loses_slot}
use fq_client_py.Tests.Network.{seconds, world_of}

abbrev pair : Pool ℕ
pair = record { size = 2; slots = none ∷ none ∷ []; is_closed = false }

abbrev one_out : Pool ℕ
one_out = record pair { slots = none ∷ [] }

abbrev idle : Shared ℕ
idle = record { pool = pair; making = 0; held = 0; returning = 0 }

abbrev broken : ℕ → Bool
broken c = c == 9

taken : acquire {A = ℕ} (some 5) (ok 7) pair ≡ (ok 7, one_out)
unfolding acquire
taken = refl

given_back : release broken 9 one_out ≡ ([], pair)
unfolding release
given_back = refl

-- A thread takes a slot, the pool is closed and drained, and then the factory of the thread fails.
abbrev made_late : Shared ℕ
made_late = record {
  pool = record { size = 2; slots = none ∷ []; is_closed = true };
  making = 0;
  held = 0;
  returning = 0;
}

busy : Steps idle made_late
unfolding take lease
busy = step (takes none one_out refl) (
    step marks (
      step (drains none (record one_out { slots = []; is_closed = true }) refl refl)
        (step (makes 0 (raise fq_connection_error) refl) stop)))

Steps-Balanced_example : Balanced made_late × (made_late.pool.size ≡ 2)
Steps-Balanced_example = Steps-Balanced busy refl

two_slots : new_pool 2 ≡ ok pair
unfolding new_pool
two_slots = refl

prefill_loses_slot_example :
    (q : Pool ℕ) × (prefill (ok 1 ∷ raise fq_connection_error ∷ []) pair
      ≡ (raise fq_connection_error, q))
    × (suc (length q.slots) ≡ q.size)
prefill_loses_slot_example = prefill_loses_slot 0 (1 ∷ []) fq_connection_error [] pair two_slots

seconds-Ordered : Ordered seconds
seconds-Ordered = record {
  reflexive = λ a. ground arith;
  strict = λ a b h. ground arith;
  total = λ a b h. ground arith;
}

clamp-Clamped_example :
    Clamped seconds seconds-Ordered
      (some 3)
      5
      (world_of [])
      (clamp seconds (record { deadline = some 3 }) 5 (world_of []))
clamp-Clamped_example =
    clamp-Clamped seconds seconds-Ordered (record { deadline = some 3 }) 5 (world_of []) refl
