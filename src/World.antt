-- ===== src/World.antt =====
-- What the client meets outside its own code: the clock, the random numbers, and the network.
--
-- The network is a script. Each call of a socket takes the next event for its outcome; an event that
-- does not fit the call, or the end of the script, is an OSError. Bytes that a call of `recv` has no
-- room for stay at the front of the script, as they stay in the buffer of a socket. So every order in
-- which calls succeed, fail, time out and deliver is some script.
use fq_client_py.Prelude.{ℕ, List, Bytes}
use fq_client_py.Floats.{Floats}

pub data Event : Type 0 where
  done os_error timed_out : Event
  received : Bytes → Event

module _ (fl : Floats) where
  open fl use {F}

  pub record World : Type 0 where
    -- the reading number `n` of the monotonic clock, and the number of readings so far
    pub time : ℕ → F
    pub reads : ℕ
    -- the same for `random.random()`
    pub random : ℕ → F
    pub draws : ℕ
    pub events : List Event
    -- what the client did: the frames that it wrote to a socket, or may have written, whole; the frames
    -- whose writing was cut off, after an unknown part of them; and its sleeps
    pub sent : List Bytes
    pub cut : List Bytes
    pub slept : List F
