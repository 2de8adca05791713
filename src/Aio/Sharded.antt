-- ===== src/Aio/Sharded.antt =====
-- fq/aio/sharded.py: one logical database over several asynchronous clients, which are made first and
-- opened later. The methods are in a module of their own; they go over the shards by the loops of the
-- synchronous client, which are the same.
pub mod FanOut
pub mod Methods
pub mod Opening
use fq_client_py.Prelude.{ℕ, Bool, false, List, [], ◌∷◌, ◌++◌, Option}
use fq_client_py.Errors.{Exn, Result, ok, raise, value_error}
use fq_client_py.Exec.{Exec}
use fq_client_py.Floats.{Floats}
use fq_client_py.World.{World}
use fq_client_py.Sync.Client.{Client, Settings}
use fq_client_py.Aio.Client.{AsyncClient, new_async, open_client, aclose_client}

module _ (fl : Floats) where
  pub record AsyncShard : Type 0 where
    pub settings : Settings fl
    pub client : AsyncClient fl settings

  abbrev pub on_client : {A : Type 0} → (Settings fl → Exec (Client fl) A) → Exec AsyncShard A
  on_client m s =
      let (r, c) = m s.settings s.client.client in
      (r, record s { client = record s.client { client = c } })

  -- `aclose`
  unfoldable pub aclose : List AsyncShard → List AsyncShard
  aclose [] = []
  aclose (s ∷ shards) = record s { client = aclose_client fl s.settings s.client } ∷ aclose shards

  -- The loop of `open`, behind the shards that it has opened
  abbrev pub opened_shard :
      (List AsyncShard → Result (Unit {0}) × List AsyncShard)
      → List AsyncShard
      → (s : AsyncShard) → List AsyncShard
      → Result (Unit {0}) × AsyncClient fl s.settings
      → Result (Unit {0}) × List AsyncShard
  opened_shard rest opened s shards (ok x, c) = rest (opened ++ record s { client = c } ∷ [])
  opened_shard rest opened s shards (raise e, c) =
      (raise e, aclose opened ++ record s { client = c } ∷ shards)

  unfoldable pub open_from : List AsyncShard → List AsyncShard → Result (Unit {0}) × List AsyncShard
  unfolding aclose
  open_from [] opened = (ok tt, opened)
  open_from (s ∷ shards) opened =
      opened_shard (open_from shards) opened s shards (open_client fl s.settings s.client)

  -- `open`
  unfoldable pub open_shards : Exec (List AsyncShard) (Unit {0})
  unfolding open_from
  open_shards shards = open_from shards []

  abbrev pub with_client :
      (cfg : Settings fl)
      → Result (AsyncClient fl cfg)
      → Result (List AsyncShard)
      → Result (List AsyncShard)
  with_client cfg (raise e) rest = raise e
  with_client cfg (ok c) (raise e) = raise e
  with_client cfg (ok c) (ok shards) = ok (record { settings = cfg; client = c } ∷ shards)

  -- `__init__`: each address has its settings and what its client meets.
  unfoldable pub clients_of : ℕ → List (Settings fl × World fl) → Result (List AsyncShard)
  clients_of pool_size [] = ok []
  clients_of pool_size ((cfg, w) ∷ addresses) =
      with_client cfg (new_async fl cfg pool_size w) (clients_of pool_size addresses)

  unfoldable pub new_sharded : ℕ → List (Settings fl × World fl) → Result (List AsyncShard)
  unfolding clients_of
  new_sharded pool_size [] = raise value_error
  new_sharded pool_size (address ∷ addresses) = clients_of pool_size (address ∷ addresses)
