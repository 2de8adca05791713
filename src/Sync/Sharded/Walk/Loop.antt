-- ===== src/Sync/Sharded/Walk/Loop.antt =====
-- The loop of `_walk` of fq/sync/sharded.py: it returns, by how it ends.
use fq_client_py.Prelude.{
  ℕ, zero, suc, ◌+◌, ◌-◌, ◌<◌, ◌≤◌, get_elem?, get_elem?-set_ne, set, ◌≡◌, refl, ap, sym, ◌∙◌, ◌⊎◌,
  inl, inr, Bool-cases, true, List, [], ◌++◌, append_assoc, append-nil, Option, some, Str, ℤ, pos,
  length, ltb, arith,
}
use fq_client_py.Errors.{ok}
use fq_client_py.Exec.{Exec}
use fq_client_py.Types.{ScanKey, ScanResult, scan_cursor_initial}
use fq_client_py.Sharding.{make_shard_cursor}
use fq_client_py.Sync.Sharded.{on_shard, call_on, walk_from, page_end}
use fq_client_py.Sync.Sharded.Elements.{get_elem?-some}
use fq_client_py.Sync.Sharded.Walk.{
  Remains, Cut, rest_from, Walking, make_shard_cursor-past, at_initial, rest_from-suc, at_start,
  walk_from-scanned, scanned-stopped, scanned-ended, next_shard,
}

-- The cursors that a walk from `inner` on the shard `first` asks for: this one there, and the initial
-- cursor on each shard behind it.
abbrev pub Asked : ℕ → Str → ℕ → Str → Type 0
Asked first inner i cursor =
    ((i ≡ first) × (cursor ≡ inner)) ⊎ ((first < i) × (cursor ≡ scan_cursor_initial))

Asked-le : (first : ℕ) (inner : Str) (i : ℕ) (cursor : Str) → Asked first inner i cursor → first ≤ i
Asked-le first inner i cursor (inl (same, _)) = omega (arith, same)
Asked-le first inner i cursor (inr (later, _)) = omega (arith, later)

-- Each shard, as it is before, answers the one scan that the walk may ask of it, by a page.
abbrev pub Scans :
    {S : Type 0} (remains : ℕ → Remains) (scan_shard : Str → ℤ → Exec S (Option ScanResult))
    (before : List S) (count first : ℕ) (inner : Str)
    → Type 0
Scans {S} remains scan_shard before count first inner =
    (i : ℕ) (s : S) (cursor : Str) (wanted : ℕ)
    → get_elem? before i ≡ some s
    → Asked first inner i cursor
    → 0 < wanted
    → wanted ≤ count
    → (page : ScanResult) × (s' : S) × (scan_shard cursor (pos wanted) s ≡ (ok (some page), s'))
      × Cut (remains i) cursor page

module _ {S : Type 0} (remains : ℕ → Remains) (scan_shard : Str → ℤ → Exec S (Option ScanResult))
    (before : List S) (n count first : ℕ) (inner : Str)
    (scans : Scans remains scan_shard before count first inner) where
  -- The shards from one on are as before.
  abbrev Unwalked : ℕ → List S → Type 0
  Unwalked index shards = (i : ℕ) → index ≤ i → get_elem? shards i ≡ get_elem? before i

  Unwalked-set :
      (index : ℕ) (shards : List S) (s : S)
      → Unwalked index shards
      → Unwalked (suc index) (set shards index s)
  Unwalked-set index shards s same j h =
      get_elem?-set_ne shards index j s (λ e. omega (arith, e, h)) ∙ same j (omega (arith, h))

  -- A page of a shard, and the walk over the shards behind it.
  on_page :
      (left index : ℕ) (cursor : Str) (keys : List ScanKey) (page : ScanResult)
      (shards shards1 : List S)
      → index + suc left ≡ n
      → ltb (length keys) count ≡ true
      → on_shard index (scan_shard cursor (pos (count - length keys))) shards
        ≡ (ok (some page), shards1)
      → Cut (remains index) cursor page
      → Walking remains scan_shard n count left
          (suc index)
          scan_cursor_initial
          (keys ++ page.keys)
          shards1
      → Walking remains scan_shard n count (suc left) index cursor keys shards
  on_page left index cursor keys page shards shards1 size wanted runs cut rest_walked =
      let step =
        walk_from-scanned remains scan_shard n count left index cursor keys page shards shards1
          wanted runs in
      elim cut [
        | inl (ended, all) ↦
            let (result, shards', later, walked) = rest_walked in
            (
              result,
              shards',
              step
                  ∙ scanned-ended remains scan_shard n count left index keys page shards1 ended
                  ∙ later,
              next_shard remains scan_shard n count left index cursor keys page result all walked,
            )
        | inr (stopped, full, same) ↦ (
          record { cursor = make_shard_cursor index page.cursor n; keys = keys ++ page.keys },
          shards1,
          step ∙ scanned-stopped remains scan_shard n count left index keys page shards1 stopped,
          record {
            more = page.keys;
            found = refl;
            end = inr (
              index,
              page.cursor,
              refl,
              omega (arith, size),
              full,
              ap (λ m. page.keys ++ m)
                    (rest_from-suc remains scan_shard n count left index page.cursor size)
                  ∙ sym (
                      append_assoc page.keys (remains index page.cursor)
                        (rest_from remains left (suc index) scan_cursor_initial))
                  ∙ ap (λ m. m ++ rest_from remains left (suc index) scan_cursor_initial) same,
            );
          },
        )
      ]

  pub walk_from-Walked :
      (left index : ℕ) (cursor : Str) (keys : List ScanKey) (shards : List S)
      → length before ≡ n
      → index + left ≡ n
      → (length keys < count) ⊎ (cursor ≡ scan_cursor_initial)
      → Asked first inner index cursor
      → Unwalked index shards
      → Walking remains scan_shard n count left index cursor keys shards
  unfolding walk_from on_shard
  walk_from-Walked zero index cursor keys shards total size start asked same = (
    page_end n index keys,
    shards,
    refl,
    record {
      more = [];
      found = sym (append-nil keys);
      end =
          inl
            (make_shard_cursor-past remains scan_shard n count index n (omega (arith, size)), refl);
    },
  )
  walk_from-Walked (suc left) index cursor keys shards total size start asked same =
      elim (Bool-cases (ltb (length keys) count)) [
        | inr full ↦ (
          page_end n index keys,
          shards,
          rw (full, walk_from),
          record {
            more = [];
            found = sym (append-nil keys);
            end = inr (
              index,
              scan_cursor_initial,
              refl,
              omega (arith, size),
              (λ e. cc e),
              at_start remains scan_shard n count left index cursor size
                  (at_initial remains scan_shard n count keys cursor start full),
            );
          },
        )
        | inl wanted ↦
            let (s, at) = get_elem?-some before index (omega (arith, total, size)) in
            let (page, s', answers, cut) =
              scans index s cursor (count - length keys) at asked (ground arith) (omega arith) in
            let m = scan_shard cursor (pos (count - length keys)) in
            let runs : on_shard index m shards ≡ (ok (some page), set shards index s') =
              ap (call_on index m shards) (same index (omega arith) ∙ at)
              ∙ ap (λ r. (r.0, set shards index r.1)) answers in
            on_page left index cursor keys page shards (set shards index s') size wanted runs cut (
              walk_from-Walked left (suc index) scan_cursor_initial (keys ++ page.keys)
                (set shards index s') total (omega (arith, size)) (inr refl)
                (inr (omega (arith, Asked-le first inner index cursor asked), refl))
                (Unwalked-set index shards s' same))
      ]
