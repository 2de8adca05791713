-- ===== src/Aio/Sharded/Opening.antt =====
-- How `open` of fq/aio/sharded.py leaves the shards.
use fq_client_py.Prelude.{
  ◌≡◌, refl, subst, sym, inl, inr, Bool, Bool-cases, true, false, List, [], ◌∷◌, ◌++◌, All,
  All-append, Str, if◌then◌else◌,
}
use fq_client_py.Errors.{Result, ok, raise}
use fq_client_py.Floats.{Floats}
use fq_client_py.Sync.Client.{Client, Settings}
use fq_client_py.Aio.Pool.{prefill}
use fq_client_py.Aio.Client.{
  AsyncClient, factory, greet, greeted, prefilled, open_client, aclose_client,
}
use fq_client_py.Aio.Client.Closing.{open_client_again, aclose_client-is_closed}
use fq_client_py.Aio.Sharded.{AsyncShard, aclose, open_from, opened_shard, open_shards}

module _ {fl : Floats} where
  -- A call of `open` marks the client as open exactly if it returns.
  module _ (cfg : Settings fl) where
    abbrev Marked : Result (Unit {0}) × AsyncClient fl cfg → Type 0
    Marked (ok x, t) = t.is_opened ≡ true
    Marked (raise e, t) = t.is_opened ≡ false

    greeted-Marked :
        (r : Result (Str × Bool) × Client fl) (s : AsyncClient fl cfg)
        → s.is_opened ≡ false
        → Marked (greeted fl cfg r s)
    greeted-Marked (ok (role, auth), t) s h = refl
    greeted-Marked (raise e, t) s h = h

    prefilled-Marked :
        (r : Result (Unit {0}) × Client fl) (s : AsyncClient fl cfg)
        → s.is_opened ≡ false
        → Marked (prefilled fl cfg r s)
    prefilled-Marked (ok x, t) s h = greeted-Marked (greet fl cfg t) s h
    prefilled-Marked (raise e, t) s h = h

    open_client-Marked : (s : AsyncClient fl cfg) → Marked (open_client fl cfg s)
    unfolding open_client
    open_client-Marked s =
        let filled = prefilled fl cfg (prefill fl (factory fl cfg) s.client) s in
        let result : Bool → Result (Unit {0}) × AsyncClient fl cfg =
          (λ b. if b then (ok tt, s) else filled) in
        elim (Bool-cases s.is_opened) [
          | inl h ↦ subst (λ b. Marked (result b)) (sym h) h
          | inr h ↦
              subst (λ b. Marked (result b)) (sym h)
                (prefilled-Marked (prefill fl (factory fl cfg) s.client) s h)
        ]

  abbrev pub IsMarked : AsyncShard fl → Type 0
  IsMarked s = s.client.is_opened ≡ true

  -- A shard that is closed, and that `open` passes over.
  abbrev pub IsGone : AsyncShard fl → Type 0
  IsGone s =
      (open_client fl s.settings s.client ≡ (ok tt, s.client))
      × (s.client.client.pool.is_closed ≡ true)

  -- How `open` ends: with all shards marked as open, or with an exception, a shard that is not open, and
  -- the shards in front of it closed.
  abbrev pub Settled : Result (Unit {0}) × List (AsyncShard fl) → Type 0
  Settled (ok x, shards) = All IsMarked shards
  Settled (raise e, shards) =
      (front : List (AsyncShard fl)) × (failed : AsyncShard fl) × (rest : List (AsyncShard fl))
      × (shards ≡ front ++ failed ∷ rest)
      × All IsGone front
      × (failed.client.is_opened ≡ false)

  aclose-IsGone :
      (shards : List (AsyncShard fl)) → All IsMarked shards → All IsGone (aclose fl shards)
  unfolding aclose aclose_client
  aclose-IsGone [] h = tt
  aclose-IsGone (s ∷ shards) (h, rest) = (
    (
      open_client_again s.settings (aclose_client fl s.settings s.client) h,
      aclose_client-is_closed s.settings s.client,
    ),
    aclose-IsGone shards rest,
  )

  opened_shard-Settled :
      (shards opened : List (AsyncShard fl)) (s : AsyncShard fl)
      (r : Result (Unit {0}) × AsyncClient fl s.settings)
      → ((opened' : List (AsyncShard fl))
          → All IsMarked opened'
          → Settled (open_from fl shards opened'))
      → All IsMarked opened
      → Marked s.settings r
      → Settled (opened_shard fl (open_from fl shards) opened s shards r)
  opened_shard-Settled shards opened s (ok x, c) later h marked =
      later (opened ++ record s { client = c } ∷ [])
        (All-append IsMarked opened (record s { client = c } ∷ []) h (marked, tt))
  opened_shard-Settled shards opened s (raise e, c) later h marked =
      (aclose fl opened, record s { client = c }, shards, refl, aclose-IsGone opened h, marked)

  open_from-Settled :
      (shards opened : List (AsyncShard fl))
      → All IsMarked opened
      → Settled (open_from fl shards opened)
  unfolding open_from
  open_from-Settled [] opened h = h
  open_from-Settled (s ∷ shards) opened h =
      opened_shard-Settled shards opened s (open_client fl s.settings s.client)
        (open_from-Settled shards) h (open_client-Marked s.settings s.client)

  -- `open` of a sharded client returns, and every shard is marked as open; or it raises, and then a shard
  -- could not be opened, and each shard in front of it is closed, and a later call of its `open` returns
  -- and changes nothing.
  pub open_shards-Settled : (shards : List (AsyncShard fl)) → Settled (open_shards fl shards)
  unfolding open_shards
  open_shards-Settled shards = open_from-Settled shards [] tt
