-- ===== src/Aio/Client/Closing.antt =====
-- An asynchronous client of fq/aio/client.py that is opened again after its end.
use fq_client_py.Prelude.{
  ◌≡◌, ◌∙◌, ap, Bool-cases, inl, inr, true, false, Option, none, some, Bytes,
}
use fq_client_py.Errors.{Result, ok, raise, pool_closed_error}
use fq_client_py.Exec.{Exec, lift, ◌>>=◌}
use fq_client_py.Floats.{Floats}
use fq_client_py.Commands.{Command}
use fq_client_py.Reconnect.{Deadline, new_deadline}
use fq_client_py.Sync.Connection.{Connection}
use fq_client_py.Sync.Pool.{Pool}
use fq_client_py.Sync.Client.{Client, Settings, Timeout, default, given, world_of_client}
use fq_client_py.Aio.Pool.{aclose, acquire, on_lease}
use fq_client_py.Aio.Retry.{with_retry}
use fq_client_py.Aio.Client.{
  AsyncClient, factory, deadline_of, execute, parsed, open_client, aclose_client,
}

module _ {fl : Floats} where
  aclose_is_closed : (p : Pool (Connection fl)) → (aclose fl p).1.is_closed ≡ true
  unfolding aclose
  aclose_is_closed p = elim (Bool-cases p.is_closed) [ inl h ↦ rw h | inr h ↦ rw h ]

  module _ (cfg : Settings fl) where
    -- The part of `execute` behind its first line.
    abbrev behind :
        {A : Type 0} → Command → (Bytes → Result A) → Deadline fl → Exec (Client fl) (Option A)
    behind command parse d = do
      c ← acquire fl (factory fl cfg) d
      payload ←
          on_lease fl c
            (with_retry fl cfg.unicode cfg.config cfg.reconnect command d false cfg.fuel cfg.fuel 0)
      lift (parsed fl cfg parse payload)

    behind-closed :
        {A : Type 0} (command : Command) (parse : Bytes → Result A) (seconds : Option fl.F)
        (s : Client fl)
        → s.pool.is_closed ≡ true
        → ((do d ← world_of_client fl (new_deadline fl seconds); behind command parse d) s).0
          ≡ raise pool_closed_error
    unfolding new_deadline acquire
    behind-closed command parse none s h = rw h
    behind-closed command parse (some t) s h = rw h

    execute-closed :
        {A : Type 0} (command : Command) (parse : Bytes → Result A) (timeout : Timeout fl)
        (s : Client fl)
        → s.pool.is_closed ≡ true
        → (execute fl cfg (ok command) parse timeout s).0 ≡ raise pool_closed_error
    unfolding execute deadline_of
    execute-closed command parse default s h = behind-closed command parse cfg.timeout s h
    execute-closed command parse (given seconds) s h = behind-closed command parse seconds s h

    pub open_client_again :
        (s : AsyncClient fl cfg) → s.is_opened ≡ true → open_client fl cfg s ≡ (ok tt, s)
    unfolding open_client
    open_client_again s h = rw h

    pub aclose_client-is_closed :
        (s : AsyncClient fl cfg) → (aclose_client fl cfg s).client.pool.is_closed ≡ true
    unfolding aclose_client
    aclose_client-is_closed s = aclose_is_closed s.client.pool

    -- `open` of a client that was opened before and then closed returns and changes nothing: every
    -- command on the client then raises PoolClosedError.
    pub open_client-aclose_client :
        {A : Type 0} (s : AsyncClient fl cfg) (command : Command) (parse : Bytes → Result A)
        (timeout : Timeout fl)
        → s.is_opened ≡ true
        → (open_client fl cfg (aclose_client fl cfg s) ≡ (ok tt, aclose_client fl cfg s))
          × ((execute fl cfg
                (ok command)
                parse
                timeout
                (open_client fl cfg (aclose_client fl cfg s)).1.client).0
              ≡ raise pool_closed_error)
    open_client-aclose_client s command parse timeout h =
        let t = aclose_client fl cfg s in
        let same = open_client_again t (unfold aclose_client in h) in
        (
          same,
          ap (λ r. (execute fl cfg (ok command) parse timeout r.1.client).0) same
              ∙ execute-closed command parse timeout t.client (aclose_client-is_closed s),
        )
