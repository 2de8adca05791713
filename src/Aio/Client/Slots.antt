-- ===== src/Aio/Client/Slots.antt =====
-- The slots of the pool over a command of fq/aio/client.py.
use fq_client_py.Prelude.{
  ℕ, suc, ◌≡◌, refl, ap, subst, sym, ◌∙◌, inl, inr, true, false, List, [], ◌∷◌, Option, none, some,
  Bytes, length, if◌then◌else◌,
}
use fq_client_py.Errors.{Exn, Result, ok, raise, pool_closed_error}
use fq_client_py.Exec.{Exec, continue, throw, lift, ◌>>=◌}
use fq_client_py.Exec.Inversion.{ends-cases, continue_assoc}
use fq_client_py.Commands
use fq_client_py.Commands.{Command}
use fq_client_py.Types.{InspectSection}
use fq_client_py.Floats.{Floats}
use fq_client_py.World.{World}
use fq_client_py.Reconnect.{Deadline, remaining}
use fq_client_py.Inspect.Json.{Json}
use fq_client_py.Inspect.Decode.{parse_inspect}
use fq_client_py.Sync.Connection.{Connection, Session, closed}
use fq_client_py.Sync.Pool.{wait_end}
use fq_client_py.Sync.Client.{Timeout, default, given, Settings, Client, world_of_client}
use fq_client_py.Sync.Client.Slots.{
  OpenWith, Fixed, Returning, Fixed-bind, Returning-bind, Fixed-lift, Fixed-world,
}
use fq_client_py.Aio.Retry.{with_retry}
use fq_client_py.Aio.Pool.{got, take, made_for, slot_or_new, acquire, release, put_nowait, on_lease}
use fq_client_py.Aio.Client.{factory, deadline_of, parsed, execute, inspect}

module _ {fl : Floats} where
  deadline_of-Fixed :
      (cfg : Settings fl) (timeout : Timeout fl) → Fixed (deadline_of fl cfg timeout)
  unfolding deadline_of
  deadline_of-Fixed cfg default = Fixed-world _
  deadline_of-Fixed cfg (given seconds) = Fixed-world _

  release-OpenWith :
      (n : ℕ) (c : Connection fl) (s : Client fl) → OpenWith n s → OpenWith (suc n) (release fl c s)
  unfolding release
  release-OpenWith n c s (h, k) =
      let back = put_nowait fl (if closed fl c then none else some c) s in
      subst (λ b. OpenWith (suc n) (if b then s else back)) (sym h) (h, ap suc k)

  on_lease-Returning :
      {A : Type 0} (c : Connection fl) (m : Exec (Session fl) A) → Returning (on_lease fl c m)
  unfolding on_lease
  on_lease-Returning c m = record {
    at = λ n s h.
        let t = (m (record { conn = c; world = s.world })).1 in
        release-OpenWith n t.conn (record s { world = t.world }) h;
  }

  module _ (make : Exec (World fl) (Connection fl)) {B : Type 0}
      (f : Connection fl → Exec (Client fl) B) (hf : (c : Connection fl) → Returning (f c)) where
    made_for-OpenWith :
        (r : Result (Connection fl) × World fl) (n : ℕ) (s : Client fl)
        → s.pool.is_closed ≡ false
        → suc (length s.pool.slots) ≡ n
        → OpenWith n (continue f (made_for fl make r s)).1
    made_for-OpenWith (ok c, w) n s h k =
        let (h', k') = (hf c).at (length s.pool.slots) (record s { world = w }) (h, refl) in
        (h', k' ∙ k)
    made_for-OpenWith (raise e, w) n s h k = (h, k)

    slot_or_new-OpenWith :
        (slot : Option (Connection fl)) (n : ℕ) (s : Client fl)
        → s.pool.is_closed ≡ false
        → suc (length s.pool.slots) ≡ n
        → OpenWith n (continue f (slot_or_new fl make slot s)).1
    slot_or_new-OpenWith (some c) n s h k =
        let (h', k') = (hf c).at (length s.pool.slots) s (h, refl) in (h', k' ∙ k)
    slot_or_new-OpenWith none n s h k = made_for-OpenWith (make s.world) n s h k

    got-OpenWith :
        (end : Exn) (slots : List (Option (Connection fl))) (n : ℕ) (s : Client fl)
        → s.pool.slots ≡ slots
        → OpenWith n s
        → OpenWith n
            (continue (λ slot. slot_or_new fl make slot >>= f) (got fl (raise end) slots s)).1
    got-OpenWith end [] n s e h = h
    got-OpenWith end (slot ∷ slots) n s e (h, k) =
        slot_or_new-OpenWith slot n (record s { pool = record s.pool { slots = slots } }) h
          (ap length (sym e) ∙ k)

    took-OpenWith :
        (end : Exn) (n : ℕ) (s : Client fl)
        → OpenWith n s
        → OpenWith n
            (continue f (continue (slot_or_new fl make) (got fl (raise end) s.pool.slots s))).1
    took-OpenWith end n s h =
        subst (λ r. OpenWith n r.1)
          (sym (continue_assoc (slot_or_new fl make) f (got fl (raise end) s.pool.slots s)))
          (got-OpenWith end s.pool.slots n s refl h)

    -- A connection that was acquired is given back by the rest.
    acquire-Fixed : (d : Deadline fl) → Fixed (acquire fl make d >>= f)
    unfolding acquire take
    acquire-Fixed d = record {
      at = λ n s h.
          let opened = (do slot ← take fl d; slot_or_new fl make slot) in
          subst (λ b. OpenWith n (continue f ((if b then throw pool_closed_error else opened) s)).1)
            (sym h.0)
            (elim (ends-cases (world_of_client fl (remaining fl d) s)) [
              | inl (x, t, k) ↦ rw k (
                  took-OpenWith (wait_end x) n t
                    (subst (λ r. OpenWith n r.1) k ((Fixed-world (remaining fl d)).at n s h)))
              | inr (e, t, k) ↦
                  rw k (subst (λ r. OpenWith n r.1) k ((Fixed-world (remaining fl d)).at n s h))
            ]);
    }

  leased-Fixed :
      {B : Type 0} (cfg : Settings fl) (d : Deadline fl) (m : Exec (Session fl) (Option Bytes))
      (read : Bytes → Result B)
      → Fixed (do
        c ← acquire fl (factory fl cfg) d
        payload ← on_lease fl c m
        lift (parsed fl cfg read payload))
  leased-Fixed cfg d m read =
      acquire-Fixed (factory fl cfg) _
        (λ c.
          Returning-bind _ _ (on_lease-Returning c m)
            λ payload. Fixed-lift (parsed fl cfg read payload))
        d

-- On an open pool with a number of slots, a command of an asynchronous client, and `inspect`, ends with
-- the pool open and with as many slots, whether it returns or raises, or waits for ever for a
-- slot, and whatever raises.
pub commands-OpenWith :
    {fl : Floats} {A : Type 0} (cfg : Settings fl) (command : Result Command)
    (parse : Bytes → Result A) (loads : Bytes → Result (Json fl)) (section : InspectSection)
    (timeout : Timeout fl) (n : ℕ) (s : Client fl)
    → s.pool.is_closed ≡ false
    → length s.pool.slots ≡ n
    → OpenWith n (execute fl cfg command parse timeout s).1
      × OpenWith n (inspect fl cfg loads section timeout s).1
unfolding execute inspect
commands-OpenWith {fl} cfg command parse loads section timeout n s open_pool count =
    let sent = with_retry fl cfg.unicode cfg.config cfg.reconnect in
    (
      (Fixed-bind _ _ (Fixed-lift command) λ c.
            Fixed-bind _ _ (deadline_of-Fixed cfg timeout)
              λ d. leased-Fixed cfg d (sent c d false cfg.fuel cfg.fuel 0) parse).at
          n s (open_pool, count),
      (Fixed-bind _ _ (deadline_of-Fixed cfg timeout) λ d.
            leased-Fixed cfg d
              (do c ← lift (Commands.inspect section); sent c d true cfg.fuel cfg.fuel 0)
              (parse_inspect loads)).at
          n s (open_pool, count),
    )
