-- ===== src/Sync/Sharded/Delete.antt =====
-- The results of `mdelete` of fq/sync/sharded.py, while the answers of the shards are written to them.
pub mod Answers
use fq_client_py.Prelude.{
  ℕ, zero, suc, ◌+◌, ◌<◌, ◌≡◌, ◌≢◌, refl, ap, subst, sym, ◌∙◌, ◌⊎◌, inl, inr, Bool, true, false,
  List, [], ◌∷◌, map, Option, none, some, Str, length, get_elem?, set, replicate, ◌==◌, ==-eq,
  Bool-cases, length-set, length-replicate, get_elem?-set_self, get_elem?-set_ne, All, arith,
  if◌then◌else◌,
}
use fq_client_py.Errors.{Result, ok, raise, bind-eq-ok, value_error}
use fq_client_py.Exec.{Exec, ◌>>=◌}
use fq_client_py.Types.{CappingKey}
use fq_client_py.Sharding.{ShardingFunc, Grouped, group_by_shard, resolve_shard}
use fq_client_py.Sharding.Groups.{
  Item, AllItems, HasItem, Has, IsGrouping, group_by_shard-IsGrouping,
}
use fq_client_py.Sync.Sharded.Elements.{get_elem?-lt}
use fq_client_py.Sync.Sharded.{
  on_shard, call_on, index_of, write_results, keys_of, delete_groups, mdelete_by,
}

-- What each shard answers for a key.
abbrev pub Answering : Type 0
Answering = ℕ → CappingKey → Bool

-- The answer of the shard of a key.
abbrev pub answer_of : Answering → Result ℕ → CappingKey → Bool
answer_of found (ok s) k = found s k
answer_of found (raise e) k = false

abbrev pub answer : Answering → (Str → Result ℕ) → CappingKey → Bool
answer found resolve k = answer_of found (resolve k.key) k

module _ (found : Answering) (resolve : Str → Result ℕ) (keys : List CappingKey) where
  -- The result at a position is the answer for the key at the position.
  abbrev pub Right : List Bool → ℕ → Type 0
  Right results p =
      (k : CappingKey) × (get_elem? keys p ≡ some k)
      × (get_elem? results p ≡ some (answer found resolve k))

  -- The items of one group, as IsGrouping describes them.
  abbrev Sound : ℕ → List Item → Type 0
  Sound s = All (λ item. (get_elem? keys item.0 ≡ some item.1) × (resolve item.1.key ≡ ok s))

  Right-set :
      (results : List Bool) (s p : ℕ) (k : CappingKey)
      → length results ≡ length keys
      → get_elem? keys p ≡ some k
      → resolve k.key ≡ ok s
      → Right (set results p (found s k)) p
  Right-set results s p k n h e = (
    k,
    h,
    get_elem?-set_self results p (found s k) (omega (arith, n, get_elem?-lt keys p h))
        ∙ ap (λ r. some (answer_of found r k)) (sym e),
  )

  Right-kept :
      (results : List Bool) (s p : ℕ) (k : CappingKey)
      → length results ≡ length keys
      → get_elem? keys p ≡ some k
      → resolve k.key ≡ ok s
      → (q : ℕ) → Right results q
      → Right (set results p (found s k)) q
  Right-kept results s p k n h e q (k', h', r) = elim (Bool-cases (p == q)) [
    | inl same ↦
        subst (Right (set results p (found s k))) (==-eq p q same) (Right-set results s p k n h e)
    | inr other ↦ (k', h', get_elem?-set_ne results p q (found s k) (λ eq. ground arith) ∙ r)
  ]

  -- The results of a group, once its answers are written.
  abbrev pub after : ℕ → List Item → List Bool → List Bool
  after s items results = write_results items (map (found s) (keys_of items)) results

  pub after-length :
      (s : ℕ) (items : List Item) (results : List Bool)
      → length (after s items results) ≡ length results
  after-length s [] results = refl
  after-length s ((p, k) ∷ items) results =
      after-length s items (set results p (found s k)) ∙ length-set results p (found s k)

  pub after-kept :
      (s : ℕ) (items : List Item) (results : List Bool)
      → Sound s items
      → length results ≡ length keys
      → (q : ℕ) → Right results q
      → Right (after s items results) q
  after-kept s [] results sound n q r = r
  after-kept s ((p, k) ∷ items) results ((h, e), sound) n q r =
      after-kept s items (set results p (found s k)) sound (length-set results p (found s k) ∙ n) q
        (Right-kept results s p k n h e q r)

  pub after-written :
      (s : ℕ) (items : List Item) (results : List Bool)
      → Sound s items
      → length results ≡ length keys
      → (p : ℕ) (k : CappingKey) → HasItem items p k
      → Right (after s items results) p
  after-written s [] results sound n p k has = absurd has
  after-written s ((p', k') ∷ items) results ((h, e), sound) n p k (inl (same, _)) =
      let size = length-set results p' (found s k') ∙ n in
      after-kept s items (set results p' (found s k')) sound size p
        (subst (Right (set results p' (found s k'))) same (Right-set results s p' k' n h e))
  after-written s ((p', k') ∷ items) results ((h, e), sound) n p k (inr has) =
      after-written s items (set results p' (found s k')) sound
        (length-set results p' (found s k') ∙ n) p k has
