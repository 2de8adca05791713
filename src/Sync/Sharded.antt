-- ===== src/Sync/Sharded.antt =====
-- fq/sync/sharded.py: one logical database over several clients.
--
-- The state is the list of the shards. A shard is a client with what it meets outside, or any type `S`:
-- the loops of this file take the operation of a shard as an argument. A result `none` is that of a
-- shard whose fuel has run out, and ends the loop.
pub mod Elements
pub mod Delete
pub mod Walk
pub mod FanOut
pub mod Methods
pub mod Construct
use fq_client_py.Prelude.{
  ℕ, zero, suc, ◌-◌, ℤ, pos, negsuc, Bool, true, false, not, ◌&&◌, List, [], ◌∷◌, ◌++◌, map, Option,
  none, some, Str, length, get_elem?, set, replicate, ltb, leb, ◌==◌, str_eq, if◌then◌else◌,
}
use fq_client_py.Errors.{Exn, Result, ok, raise, index_error, shard_index_error, value_error}
use fq_client_py.Exec.{Exec, pure, throw, lift, ◌>>=◌, ◌>>◌}
use fq_client_py.Python.Decimal.{CharacterData}
use fq_client_py.Types.{CappingKey, ScanKey, ScanResult, scan_cursor_initial}
use fq_client_py.Sharding.{
  ShardingFunc, Grouped, resolve_shard, group_by_shard, parse_shard_cursor, make_shard_cursor,
}

-- One answer in front of the others.
abbrev pub answered : {A : Type 0} → A → Result (Option (List A)) → Result (Option (List A))
answered a (raise e) = raise e
answered a (ok none) = ok none
answered a (ok (some rest)) = ok (some (a ∷ rest))

-- `all(results)`
abbrev pub all_true : List Bool → Bool
all_true [] = true
all_true (b ∷ bs) = b && all_true bs

-- The inner loop of `mdelete`: `results[position] = result`
abbrev pub write_results : List (ℕ × CappingKey) → List Bool → List Bool → List Bool
write_results [] answers results = results
write_results (item ∷ items) [] results = results
write_results ((position, key) ∷ items) (b ∷ answers) results =
    write_results items answers (set results position b)

abbrev pub keys_of : List (ℕ × CappingKey) → List CappingKey
keys_of items = map (λ item. item.1) items

-- `len(keys) < count`, and `count - len(keys)` where it holds
abbrev pub below : ℕ → ℤ → Bool
below n (pos count) = ltb n count
below n (negsuc count) = false

abbrev pub minus : ℤ → ℕ → ℤ
minus (pos count) n = pos (count - n)
minus (negsuc count) n = negsuc count

abbrev pub page_end : ℕ → ℕ → List ScanKey → ScanResult
page_end count index keys = record {
  cursor = make_shard_cursor index scan_cursor_initial count;
  keys = keys;
}

module _ {S : Type 0} where
  -- A call on `self._shards[index]`
  abbrev pub call_on : {A : Type 0} → ℕ → Exec S A → List S → Option S → Result A × List S
  call_on i m shards none = (raise index_error, shards)
  call_on i m shards (some s) = let (r, s') = m s in (r, set shards i s')

  unfoldable pub on_shard : {A : Type 0} → ℕ → Exec S A → Exec (List S) A
  on_shard i m shards = call_on i m shards (get_elem? shards i)

  -- `shard`
  unfoldable pub shard_of : ℤ → List S → Result S
  shard_of (negsuc n) shards = raise shard_index_error
  shard_of (pos n) shards = elim (get_elem? shards n) [
    | none ↦ raise shard_index_error
    | some s ↦ ok s
  ]

  -- `_index_of`
  unfoldable pub index_of : ShardingFunc → List S → Str → Result ℕ
  index_of f shards key = resolve_shard key (length shards) f

  -- A call on `self._by_key(key)`
  unfoldable pub by_key : {A : Type 0} → ShardingFunc → Str → Exec S A → Exec (List S) A
  unfolding on_shard index_of
  by_key f key m shards = (do index ← lift (index_of f shards key); on_shard index m) shards

  -- The answers of all shards, in order.
  abbrev pub then_rest :
      {A : Type 0}
      → Result (Option A) × S
      → List S
      → Result (Option (List A)) × List S
      → Result (Option (List A)) × List S
  then_rest (raise e, s) shards later = (raise e, s ∷ shards)
  then_rest (ok none, s) shards later = (ok none, s ∷ shards)
  then_rest (ok (some a), s) shards (r, shards') = (answered a r, s ∷ shards')

  unfoldable pub each_shard : {A : Type 0} → Exec S (Option A) → Exec (List S) (Option (List A))
  each_shard m [] = (ok (some []), [])
  each_shard m (s ∷ shards) = then_rest (m s) shards (each_shard m shards)

  -- `flushdb` and `truncate`, by the method of a shard
  unfoldable pub all_shards : Exec S (Option Bool) → Exec (List S) (Option Bool)
  unfolding each_shard
  all_shards m = do
    results ← each_shard m
    elim results [ none ↦ pure none | some bs ↦ pure (some (all_true bs)) ]

  module _ (mdelete_shard : List CappingKey → Exec S (Option (List Bool))) where
    -- The loop of `mdelete` over the groups
    unfoldable pub delete_groups : Grouped → List Bool → Exec (List S) (Option (List Bool))
    unfolding on_shard
    delete_groups [] results = pure (some results)
    delete_groups ((index, items) ∷ groups) results = do
      shard_results ← on_shard index (mdelete_shard (keys_of items))
      elim shard_results [
        | none ↦ pure none
        | some answers ↦
            if not (length answers == length items)
            then throw value_error
            else delete_groups groups (write_results items answers results)
      ]

    unfoldable pub mdelete_by : ShardingFunc → List CappingKey → Exec (List S) (Option (List Bool))
    unfolding delete_groups index_of
    mdelete_by f keys shards =
        (do
          groups ← lift (group_by_shard keys (index_of f shards))
          delete_groups groups (replicate (length keys) false))
          shards

  module _ (scan_shard : Str → ℤ → Exec S (Option ScanResult)) where
    -- The loop of `_walk`: `left` is the number of shards from `index` on.
    unfoldable pub walk_from :
        (shard_count : ℕ)
        → ℤ
        → (left index : ℕ) → Str
        → List ScanKey
        → Exec (List S) (Option ScanResult)
    unfolding on_shard
    walk_from shard_count count zero index cursor keys =
        pure (some (page_end shard_count index keys))
    walk_from shard_count count (suc left) index cursor keys = elim (below (length keys) count) [
      | false ↦ pure (some (page_end shard_count index keys))
      | true ↦ do
        page ← on_shard index (scan_shard cursor (minus count (length keys)))
        elim page [
          | none ↦ pure none
          | some p ↦ elim (str_eq p.cursor scan_cursor_initial) [
            | false ↦ pure (
                some (record {
                  cursor = make_shard_cursor index p.cursor shard_count;
                  keys = keys ++ p.keys;
                }))
            | true ↦
                walk_from shard_count count left (suc index) scan_cursor_initial (keys ++ p.keys)
          ]
        ]
    ]

    -- `_walk`
    unfoldable pub walk : CharacterData → Str → ℤ → Exec (List S) (Option ScanResult)
    unfolding walk_from
    walk u cursor count shards =
        (do
          (index, shard_cursor) ← lift (parse_shard_cursor u cursor (length shards))
          walk_from (length shards) count (length shards - index) index shard_cursor [])
          shards
