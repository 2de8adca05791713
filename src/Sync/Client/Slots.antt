-- ===== src/Sync/Client/Slots.antt =====
-- The slots of the pool over a command of fq/sync/client.py.
use fq_client_py.Prelude.{
  ℕ, suc, ◌≡◌, refl, ap, subst, sym, ◌∙◌, inl, inr, Bool, false, List, [], ◌∷◌, Option, none, some,
  length, if◌then◌else◌,
}
use fq_client_py.Errors.{Exn, Result, ok, raise, pool_closed_error}
use fq_client_py.Exec.{Exec, continue, throw, lift, ◌>>=◌}
use fq_client_py.Exec.Inversion.{ends-cases, continue_assoc}
use fq_client_py.Commands.{Command}
use fq_client_py.Floats.{Floats}
use fq_client_py.World.{World}
use fq_client_py.Reconnect.{Deadline, remaining}
use fq_client_py.Sync.Connection.{Connection, Session, connect, new_connection, closed}
use fq_client_py.Sync.Retry.{with_retry, plain_send}
use fq_client_py.Sync.Pool.{Pool, wait_end, take, take_from, release, put}
use fq_client_py.Sync.Client.{
  Timeout, default, given, Settings, Client, world_of_client, deadline_of, made, from_slot,
  take_slot, hold, on_lease, parsed, execute,
}

module _ {fl : Floats} where
  -- From one state with an open pool to another, with a number of slots more or less.
  abbrev pub OpenWith : ℕ → Client fl → Type 0
  OpenWith n s = (s.pool.is_closed ≡ false) × (length s.pool.slots ≡ n)

  pub record Fixed {A : Type 0} (m : Exec (Client fl) A) : Type 0 where
    pub at : (n : ℕ) (s : Client fl) → OpenWith n s → OpenWith n (m s).1

  pub record Returning {A : Type 0} (m : Exec (Client fl) A) : Type 0 where
    pub at : (n : ℕ) (s : Client fl) → OpenWith n s → OpenWith (suc n) (m s).1

  module _ {A B : Type 0} (m : Exec (Client fl) A) (f : A → Exec (Client fl) B) where
    pub Fixed-bind : Fixed m → ((a : A) → Fixed (f a)) → Fixed (m >>= f)
    Fixed-bind hm hf = record {
      at = λ n s h. elim (ends-cases (m s)) [
        | inl (a, t, k) ↦ rw k ((hf a).at n t (subst (λ r. OpenWith n r.1) k (hm.at n s h)))
        | inr (e, t, k) ↦ rw k (subst (λ r. OpenWith n r.1) k (hm.at n s h))
      ];
    }

    pub Returning-bind : Returning m → ((a : A) → Fixed (f a)) → Returning (m >>= f)
    Returning-bind hm hf = record {
      at = λ n s h. elim (ends-cases (m s)) [
        | inl (a, t, k) ↦
            rw k ((hf a).at (suc n) t (subst (λ r. OpenWith (suc n) r.1) k (hm.at n s h)))
        | inr (e, t, k) ↦ rw k (subst (λ r. OpenWith (suc n) r.1) k (hm.at n s h))
      ];
    }

  pub Fixed-lift : {A : Type 0} (r : Result A) → Fixed (lift r)
  Fixed-lift r = record { at = λ n s h. h }

  pub Fixed-world : {A : Type 0} (m : Exec (World fl) A) → Fixed (world_of_client fl m)
  Fixed-world m = record { at = λ n s h. h }

  pub deadline_of-Fixed :
      (cfg : Settings fl) (timeout : Timeout fl) → Fixed (deadline_of fl cfg timeout)
  unfolding deadline_of
  deadline_of-Fixed cfg default = Fixed-world _
  deadline_of-Fixed cfg (given seconds) = Fixed-world _

  released-OpenWith :
      (n : ℕ) (p : Pool (Connection fl)) (c : Connection fl)
      → p.is_closed ≡ false
      → length p.slots ≡ n
      → ((release (closed fl) c p).1.is_closed ≡ false)
        × (length (release (closed fl) c p).1.slots ≡ suc n)
  unfolding release
  released-OpenWith n p c h k =
      let back = put (if closed fl c then none else some c) p in
      let ended : Bool → List (Connection fl) × Pool (Connection fl) =
        (λ b. if b then (c ∷ [], p) else ([], back)) in
      subst (λ b. ((ended b).1.is_closed ≡ false) × (length (ended b).1.slots ≡ suc n)) (sym h)
        (h, ap suc k)

  pub on_lease-Returning :
      {A : Type 0} (c : Connection fl) (m : Exec (Session fl) A) → Returning (on_lease fl c m)
  unfolding on_lease release
  on_lease-Returning c m = record {
    at = λ n s (open_pool, count).
        released-OpenWith n s.pool (m (record { conn = c; world = s.world })).1.conn open_pool
          count;
  }

  -- A connection that was taken is given back by the rest, and a slot whose connection could not be
  -- made goes back at once.
  module _ {B : Type 0} (f : Connection fl → Exec (Client fl) B)
      (hf : (c : Connection fl) → Returning (f c)) where
    made-Fixed :
        (r : Result (Unit {0}) × Session fl) (n : ℕ) (s : Client fl)
        → s.pool.is_closed ≡ false
        → suc (length s.pool.slots) ≡ n
        → OpenWith n (continue f (made fl r s)).1
    made-Fixed (ok x, t) n s h k =
        let (h', k') =
          (hf t.conn).at (length s.pool.slots) (record s { world = t.world }) (h, refl) in
        (h', k' ∙ k)
    made-Fixed (raise e, t) n s h k = (h, k)

    from_slot-Fixed :
        (cfg : Settings fl) (slot : Option (Connection fl)) (n : ℕ) (s : Client fl)
        → s.pool.is_closed ≡ false
        → suc (length s.pool.slots) ≡ n
        → OpenWith n ((from_slot fl cfg slot >>= f) s).1
    unfolding from_slot
    from_slot-Fixed cfg (some c) n s h k =
        let (h', k') = (hf c).at (length s.pool.slots) s (h, refl) in (h', k' ∙ k)
    from_slot-Fixed cfg none n s h k =
        made-Fixed
          (connect fl cfg.unicode cfg.config (record { conn = new_connection fl; world = s.world }))
          n s h k

    taken-Fixed :
        (cfg : Settings fl) (end : Exn) (slots : List (Option (Connection fl))) (n : ℕ)
        (s : Client fl)
        → s.pool.slots ≡ slots
        → OpenWith n s
        → let (r, p) = take_from end slots s.pool in
          OpenWith n (continue (λ slot. from_slot fl cfg slot >>= f) (r, record s { pool = p })).1
    taken-Fixed cfg end [] n s e h = h
    taken-Fixed cfg end (slot ∷ slots) n s e (h, k) =
        from_slot-Fixed cfg slot n (record s { pool = record s.pool { slots = slots } }) h
          (ap length (sym e) ∙ k)

    took-Fixed :
        (cfg : Settings fl) (left : Option fl.F) (n : ℕ) (s : Client fl)
        → OpenWith n s
        → OpenWith n (continue f ((take_slot fl left >>= from_slot fl cfg) s)).1
    unfolding take_slot take
    took-Fixed cfg left n s h =
        subst (λ r. OpenWith n r.1)
          (sym (continue_assoc (from_slot fl cfg) f (take_slot fl left s)))
          (taken-Fixed cfg (wait_end left) s.pool.slots n s refl h)

    pub hold-Fixed : (cfg : Settings fl) (d : Deadline fl) → Fixed (hold fl cfg d >>= f)
    unfolding hold
    hold-Fixed cfg d = record {
      at = λ n s h.
          let opened = (do
            left ← world_of_client fl (remaining fl d)
            slot ← take_slot fl left
            from_slot fl cfg slot) in
          subst (λ b. OpenWith n (continue f ((if b then throw pool_closed_error else opened) s)).1)
            (sym h.0)
            (elim (ends-cases (world_of_client fl (remaining fl d) s)) [
              | inl (x, t, k) ↦ rw k (
                  took-Fixed cfg x n t
                    (subst (λ r. OpenWith n r.1) k ((Fixed-world (remaining fl d)).at n s h)))
              | inr (e, t, k) ↦
                  rw k (subst (λ r. OpenWith n r.1) k ((Fixed-world (remaining fl d)).at n s h))
            ]);
    }

-- On an open pool with a number of slots, a command ends with the pool open and with as many slots,
-- whether it returns or raises, or waits for ever for a slot, and whatever raises: the encoder, the wait
-- for a connection, the factory, the exchange or the decoder.
pub execute-slots :
    {fl : Floats} {A : Type 0} (cfg : Settings fl) (command : Result Command)
    (parse : List ℕ → Result A) (timeout : Timeout fl) (n : ℕ) (s : Client fl)
    → s.pool.is_closed ≡ false
    → length s.pool.slots ≡ n
    → OpenWith n (execute fl cfg command parse timeout s).1
unfolding execute
execute-slots {fl} cfg command parse timeout n s open_pool count =
    (Fixed-bind _ _ (Fixed-lift command) λ c. Fixed-bind _ _ (deadline_of-Fixed cfg timeout) λ d.
        hold-Fixed _
          (λ conn.
            Returning-bind _ _
              (on_lease-Returning conn
                (with_retry fl cfg.unicode cfg.config cfg.reconnect c d (plain_send fl) cfg.fuel 0))
              λ payload. Fixed-lift (parsed fl parse payload))
          cfg d).at
      n s (open_pool, count)
