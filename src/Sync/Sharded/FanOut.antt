-- ===== src/Sync/Sharded/FanOut.antt =====
-- `_fan_out` of fq/sync/sharded.py: one thread for each shard puts the events of the shard into a
-- queue, and the caller takes them out. The threads run in any order, so the calls are steps.
pub mod Order
use fq_client_py.Prelude.{
  ℕ, zero, suc, ◌≡◌, Bool, true, false, List, [], ◌∷◌, ◌++◌, map, some, get_elem?, set,
  if◌then◌else◌,
}
use fq_client_py.Errors.{Exn}

-- What a thread puts into the queue: an event, or the exception that has ended its stream.
pub data Put (T : Type 0) : Type 0 where
  event : T → Put T
  error : Exn → Put T

-- Where a thread is: before its next event, at the test of the flag behind a `put`, or at its end.
pub data Phase : Type 0 where
  running checking returned : Phase

pub record Worker (T : Type 0) : Type 0 where
  -- what the stream of its shard still gives
  pub pending : List (Put T)
  pub phase : Phase

-- The threads by shard, the queue, the flag `stop`, and the entries that the caller has taken: an event
-- is yielded, an exception is raised. An entry has the number of its shard, which the source does not
-- keep.
pub record FanOut (T : Type 0) : Type 0 where
  pub workers : List (Worker T)
  pub queue : List (ℕ × Put T)
  pub stopped : Bool
  pub taken : List (ℕ × Put T)

module _ {T : Type 0} where
  abbrev pub phase_after : Put T → Phase
  phase_after (event e) = checking
  phase_after (error x) = returned

  -- `events.put`
  abbrev pub put_by : ℕ → Put T → List (Put T) → FanOut T → FanOut T
  put_by i p rest s = record s {
    workers = set s.workers i (record { pending = rest; phase = phase_after p });
    queue = s.queue ++ (i, p) ∷ [];
  }

  -- `if stop.is_set(): return`
  abbrev pub check_by : ℕ → List (Put T) → FanOut T → FanOut T
  check_by i rest s = record s {
    workers =
        set s.workers i
          (record { pending = rest; phase = if s.stopped then returned else running });
  }

  abbrev pub is_error : Put T → Bool
  is_error (event e) = false
  is_error (error x) = true

  -- `events.get`, and what follows: an exception leaves the loop, and `finally` sets the flag.
  abbrev pub take_by : ℕ × Put T → List (ℕ × Put T) → FanOut T → FanOut T
  take_by head rest s = record s {
    queue = rest;
    taken = s.taken ++ head ∷ [];
    stopped = is_error head.1;
  }

  -- A step of a thread or of the caller, who may also close the generator.
  pub data Step : FanOut T → FanOut T → Type 0 where
    puts :
        {s : FanOut T} (i : ℕ) (p : Put T) (rest : List (Put T))
        → get_elem? s.workers i ≡ some (record { pending = p ∷ rest; phase = running })
        → Step s (put_by i p rest s)
    checks :
        {s : FanOut T} (i : ℕ) (rest : List (Put T))
        → get_elem? s.workers i ≡ some (record { pending = rest; phase = checking })
        → Step s (check_by i rest s)
    takes :
        {s : FanOut T} (head : ℕ × Put T) (rest : List (ℕ × Put T))
        → s.queue ≡ head ∷ rest
        → s.stopped ≡ false
        → Step s (take_by head rest s)
    shuts : {s : FanOut T} → s.stopped ≡ false → Step s (record s { stopped = true })

  pub data Run : FanOut T → FanOut T → Type 0 where
    rests : {s : FanOut T} → Run s s
    steps : {s t u : FanOut T} → Step s t → Run t u → Run s u

  -- The threads at their start, by what the streams of the shards give.
  abbrev pub workers_of : List (List (Put T)) → List (Worker T)
  workers_of streams = map (λ p. record { pending = p; phase = running }) streams

  abbrev pub fan_out : List (List (Put T)) → FanOut T
  fan_out streams = record { workers = workers_of streams; queue = []; stopped = false; taken = [] }
