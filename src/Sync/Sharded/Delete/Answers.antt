-- ===== src/Sync/Sharded/Delete/Answers.antt =====
-- `mdelete` of fq/sync/sharded.py: each key has the answer of its shard, at the position of the key.
use fq_client_py.Prelude.{
  ℕ, zero, suc, ◌<◌, ◌≡◌, refl, ap, sym, ◌∙◌, inl, inr, Bool, true, false, List, [], ◌∷◌, map,
  Option, none, some, Str, length, get_elem?, get_elem?-set_ne, set, subst, All, replicate, ◌==◌,
  length-replicate, arith,
}
use fq_client_py.Errors.{Result, ok}
use fq_client_py.Exec.{Exec}
use fq_client_py.Types.{CappingKey}
use fq_client_py.Sharding.{ShardingFunc, Grouped, group_by_shard}
use fq_client_py.Sharding.Groups.{Item, AllItems, Has, IsGrouping, group_by_shard-IsGrouping}
use fq_client_py.Sharding.Distinct.{HasGroup, Distinct, group_by_shard-Distinct}
use fq_client_py.Sync.Sharded.{on_shard, call_on, index_of, keys_of, delete_groups, mdelete_by}
use fq_client_py.Sync.Sharded.Elements.{get_elem?-lt, get_elem?-some}
use fq_client_py.Sync.Sharded.Delete.{
  Answering, answer, Right, after, after-length, after-kept, after-written,
}

length-map : {A B : Type 0} (f : A → B) (xs : List A) → length (map f xs) ≡ length xs
length-map f [] = refl
length-map f (x ∷ xs) = ap suc (length-map f xs)

get_elem?-map :
    {A B : Type 0} (f : A → B) (xs : List A) (i : ℕ) {x : A}
    → get_elem? xs i ≡ some x
    → get_elem? (map f xs) i ≡ some (f x)
get_elem?-map f [] i h = cc
get_elem?-map f (y ∷ xs) zero h = ap (λ o. elim o [ none ↦ none | some z ↦ some (f z) ]) h
get_elem?-map f (y ∷ xs) (suc i) h = get_elem?-map f xs i h

same_elements :
    {A : Type 0} (xs ys : List A)
    → length xs ≡ length ys
    → ((i : ℕ) (y : A) → get_elem? ys i ≡ some y → get_elem? xs i ≡ some y)
    → xs ≡ ys
same_elements [] [] n h = refl
same_elements [] (y ∷ ys) n h = absurd (omega (arith, n))
same_elements (x ∷ xs) [] n h = absurd (omega (arith, n))
same_elements (x ∷ xs) (y ∷ ys) n h =
    let first : x ≡ y = cc (h zero y refl) in
    cc (first, same_elements xs ys (omega (arith, n)) (λ i z e. h (suc i) z e))

module _ (found : Answering) (resolve : Str → Result ℕ) (keys : List CappingKey)
    (results : List Bool) where
  -- Results that are right for every item of a grouping are the answers for the keys, in order.
  matched :
      {g : Grouped}
      → IsGrouping keys resolve g
      → length results ≡ length keys
      → ((s p : ℕ) (k : CappingKey) → Has g s p k → Right found resolve keys results p)
      → results ≡ map (answer found resolve) keys
  matched grouping size done =
      let wanted = map (answer found resolve) keys in
      same_elements results wanted (size ∙ sym (length-map (answer found resolve) keys)) λ i y e.
        let lt : i < length keys =
          omega (arith, get_elem?-lt wanted i e, length-map (answer found resolve) keys) in
        let (k, at) = get_elem?-some keys i lt in
        let (s, es, has) = grouping.complete i k at in
        let (k', at', right) = done s i k has in
        right ∙ sym (get_elem?-map (answer found resolve) keys i at') ∙ e

module _ {S : Type 0} (mdelete_shard : List CappingKey → Exec S (Option (List Bool)))
    (found : Answering) (before : List S) where
  -- The shard of a group, as it is before, answers the one `mdelete` of the keys of the group.
  abbrev pub AnswersGroup : ℕ × List Item → Type 0
  AnswersGroup (i, items) =
      (s : S) × (s' : S) × (get_elem? before i ≡ some s)
      × (mdelete_shard (keys_of items) s ≡ (ok (some (map (found i) (keys_of items))), s'))

  -- The shards that are still to be asked are as before.
  abbrev Unasked : Grouped → List S → Type 0
  Unasked g shards = (i : ℕ) → HasGroup g i → get_elem? shards i ≡ get_elem? before i

  Unasked-set :
      (i : ℕ) (items : List Item) (g : Grouped) (shards : List S) (s : S)
      → (HasGroup g i → ⊥)
      → Unasked ((i, items) ∷ g) shards
      → Unasked g (set shards i s)
  Unasked-set i items g shards s fresh same j h =
      get_elem?-set_ne shards i j s (λ e. fresh (subst (HasGroup g) (sym e) h)) ∙ same j (inr h)

  module _ (resolve : Str → Result ℕ) (keys : List CappingKey) where
    delete_groups-Right :
        (g : Grouped) (results : List Bool) (shards : List S)
        → AllItems (λ s p k. (get_elem? keys p ≡ some k) × (resolve k.key ≡ ok s)) g
        → Distinct g
        → All AnswersGroup g
        → length results ≡ length keys
        → Unasked g shards
        → (results' : List Bool) × (shards' : List S) × (delete_groups mdelete_shard g results
              shards
            ≡ (ok (some results'), shards'))
          × (length results' ≡ length keys)
          × ((q : ℕ) → Right found resolve keys results q → Right found resolve keys results' q)
          × ((s p : ℕ) (k : CappingKey) → Has g s p k → Right found resolve keys results' p)
    unfolding delete_groups on_shard
    delete_groups-Right [] results shards sound distinct asked size same =
        (results, shards, refl, size, λ q r. r, λ s p k has. absurd has)
    delete_groups-Right ((i, items) ∷ g) results shards (here, sound) (fresh, distinct)
          ((s, s', at, answers), asked) size same =
        let answered = map (found i) (keys_of items) in
        let m = mdelete_shard (keys_of items) in
        let runs : on_shard i m shards ≡ (ok (some answered), set shards i s') =
          ap (call_on i m shards) (same i (inl refl) ∙ at)
          ∙ ap (λ r. (r.0, set shards i r.1)) answers in
        let sized : (length answered == length items) ≡ true = ground (
          arith,
          length-map (found i) (keys_of items),
          length-map (λ (item : Item). item.1) items,
        ) in
        let written = after found resolve keys i items results in
        let size1 : length written ≡ length keys =
          after-length found resolve keys i items results ∙ size in
        let (results', shards', later, size', kept, done) =
          delete_groups-Right g written (set shards i s') sound distinct asked size1
            (Unasked-set i items g shards s' fresh same) in
        (
          results',
          shards',
          rw (runs, sized) later,
          size',
          λ q r. kept q (after-kept found resolve keys i items results here size q r),
          λ t p k has. elim has [
            | inl (same_shard, item) ↦
                kept p (after-written found resolve keys i items results here size p k item)
            | inr has' ↦ done t p k has'
          ],
        )

  -- If the keys are grouped, and the shard of each group answers the one `mdelete` of the keys of its
  -- group with an answer for each: the sharded `mdelete` returns, and its results are the answers of
  -- the shards of the keys, one for each key, in the order of the keys, whatever the sharding function
  -- and however often a key is repeated.
  pub mdelete_by-answers :
      (f : ShardingFunc) (keys : List CappingKey) {g : Grouped}
      → group_by_shard keys (index_of f before) ≡ ok g
      → All AnswersGroup g
      → (shards' : List S) × (mdelete_by mdelete_shard f keys before
          ≡ (ok (some (map (answer found (index_of f before)) keys)), shards'))
  unfolding mdelete_by
  mdelete_by-answers f keys {g} grouped asked =
      let resolve = index_of f before in
      let grouping = group_by_shard-IsGrouping keys resolve grouped in
      let (results, shards', runs, size, kept, done) =
        delete_groups-Right resolve keys g (replicate (length keys) false) before grouping.sound
          (group_by_shard-Distinct resolve keys grouped) asked
          (length-replicate (length keys) false) (λ i h. refl) in
      let same : results ≡ map (answer found resolve) keys =
        matched found resolve keys results grouping size done in
      (shards', rw (grouped, runs) (ap (λ r. (ok (some r), shards')) same))
