-- ===== src/Sync/Sharded/Walk.antt =====
-- The walk of fq/sync/sharded.py over the shards, against what one shard promises of a scan.
pub mod Loop
pub mod Pages
use fq_client_py.Prelude.{
  ℕ, zero, suc, ◌+◌, ◌-◌, ◌≤◌, ◌<◌, ◌≡◌, ◌≢◌, refl, ap, subst, sym, ◌∙◌, ◌⊎◌, inl, inr, Bool,
  Bool-cases, true, false, List, [], ◌∷◌, ◌++◌, append_assoc, append-nil, Option, none, some, Str,
  ℤ, pos, length, ltb, str_eq, arith,
}
use fq_client_py.Errors.{Result, ok, raise}
use fq_client_py.Exec.{Exec, pure, ◌>>=◌}
use fq_client_py.Types.{ScanKey, ScanResult, scan_cursor_initial}
use fq_client_py.Sharding.{make_shard_cursor}
use fq_client_py.Sync.Sharded.{on_shard, walk_from, page_end}

-- What is left to scan from a cursor.
abbrev pub Remains : Type 0
Remains = Str → List ScanKey

-- What a scan promises: its page and what is left from the cursor of the page are what was left from
-- the cursor that it was given, and nothing is left where it returns the initial cursor.
abbrev pub Cut : Remains → Str → ScanResult → Type 0
Cut remains cursor page =
    ((str_eq page.cursor scan_cursor_initial ≡ true) × (page.keys ≡ remains cursor))
    ⊎ ((str_eq page.cursor scan_cursor_initial ≡ false)
        × (page.cursor ≢ [])
        × (page.keys ++ remains page.cursor ≡ remains cursor))

-- What is left from a cursor of one shard and of the `left` shards from it on.
abbrev pub rest_from : (ℕ → Remains) → (left index : ℕ) → Remains
rest_from remains zero index cursor = []
rest_from remains (suc left) index cursor =
    remains index cursor ++ rest_from remains left (suc index) scan_cursor_initial

module _ {S : Type 0} (remains : ℕ → Remains) (scan_shard : Str → ℤ → Exec S (Option ScanResult))
    (n count : ℕ) where
  -- How the loop ends, on keys that it was given: with the initial cursor and all that was left, or
  -- with the cursor of a shard in range.
  pub record Walked (left index : ℕ) (cursor : Str) (keys : List ScanKey) (result : ScanResult)
      : Type 0 where
    pub more : List ScanKey
    pub found : result.keys ≡ keys ++ more
    pub end :
        ((result.cursor ≡ scan_cursor_initial) × (more ≡ rest_from remains left index cursor))
        ⊎ ((i : ℕ) × (c : Str) × (result.cursor ≡ make_shard_cursor i c n)
            × (i < n)
            × (c ≢ [])
            × (more ++ rest_from remains (n - i) i c ≡ rest_from remains left index cursor))

  abbrev pub Walking :
      (left index : ℕ) (cursor : Str) (keys : List ScanKey) (shards : List S) → Type 0
  Walking left index cursor keys shards =
      (result : ScanResult) × (shards' : List S) × (walk_from scan_shard n (pos count) left index
          cursor keys shards
        ≡ (ok (some result), shards'))
      × Walked left index cursor keys result

  pub make_shard_cursor-past :
      (index n : ℕ)
      → n ≤ index
      → make_shard_cursor index scan_cursor_initial n ≡ scan_cursor_initial
  unfolding make_shard_cursor
  make_shard_cursor-past index n h = ground arith

  -- The loop stops before a shard only at the start of the shard.
  pub at_initial :
      (keys : List ScanKey) (cursor : Str)
      → (length keys < count) ⊎ (cursor ≡ scan_cursor_initial)
      → ltb (length keys) count ≡ false
      → cursor ≡ scan_cursor_initial
  at_initial keys cursor (inl h) full = absurd (ground arith)
  at_initial keys cursor (inr h) full = h

  pub rest_from-suc :
      (left index : ℕ) (cursor : Str)
      → index + suc left ≡ n
      → rest_from remains (n - index) index cursor ≡ rest_from remains (suc left) index cursor
  rest_from-suc left index cursor size =
      let same : n - index ≡ suc left = omega (arith, size) in
      ap (λ m. rest_from remains m index cursor) same

  pub at_start :
      (left index : ℕ) (cursor : Str)
      → index + suc left ≡ n
      → cursor ≡ scan_cursor_initial
      → rest_from remains (n - index) index scan_cursor_initial
        ≡ rest_from remains (suc left) index cursor
  at_start left index cursor size start =
      rest_from-suc left index scan_cursor_initial size
      ∙ ap (λ c. rest_from remains (suc left) index c) (sym start)

  -- The loop behind a page.
  abbrev pub scanned :
      (left index : ℕ) → List ScanKey → ScanResult → Exec (List S) (Option ScanResult)
  scanned left index keys p = elim (str_eq p.cursor scan_cursor_initial) [
    | false ↦
        pure (some (record { cursor = make_shard_cursor index p.cursor n; keys = keys ++ p.keys }))
    | true ↦
        walk_from scan_shard n (pos count) left (suc index) scan_cursor_initial (keys ++ p.keys)
  ]

  pub walk_from-scanned :
      (left index : ℕ) (cursor : Str) (keys : List ScanKey) (page : ScanResult)
      (shards shards1 : List S)
      → ltb (length keys) count ≡ true
      → on_shard index (scan_shard cursor (pos (count - length keys))) shards
        ≡ (ok (some page), shards1)
      → walk_from scan_shard n (pos count) (suc left) index cursor keys shards
        ≡ scanned left index keys page shards1
  unfolding walk_from
  walk_from-scanned left index cursor keys page shards shards1 wanted runs =
      rw (wanted, walk_from) (rw (runs, on_shard))

  pub scanned-stopped :
      (left index : ℕ) (keys : List ScanKey) (page : ScanResult) (shards : List S)
      → str_eq page.cursor scan_cursor_initial ≡ false
      → scanned left index keys page shards ≡ (
        ok (
            some (record {
              cursor = make_shard_cursor index page.cursor n;
              keys = keys ++ page.keys;
            })),
        shards,
      )
  scanned-stopped left index keys page shards h = rw (h, scanned)

  pub scanned-ended :
      (left index : ℕ) (keys : List ScanKey) (page : ScanResult) (shards : List S)
      → str_eq page.cursor scan_cursor_initial ≡ true
      → scanned left index keys page shards
        ≡ walk_from scan_shard n
            (pos count)
            left
            (suc index)
            scan_cursor_initial
            (keys ++ page.keys)
            shards
  scanned-ended left index keys page shards h = rw (h, scanned)

  -- A shard that is scanned to its end, and the walk over the shards behind it.
  pub next_shard :
      (left index : ℕ) (cursor : Str) (keys : List ScanKey) (page result : ScanResult)
      → page.keys ≡ remains index cursor
      → Walked left (suc index) scan_cursor_initial (keys ++ page.keys) result
      → Walked (suc left) index cursor keys result
  next_shard left index cursor keys page result all walked =
      let front = λ (m : List ScanKey). page.keys ++ m in
      let tail = rest_from remains left (suc index) scan_cursor_initial in
      record {
        more = page.keys ++ walked.more;
        found = walked.found ∙ append_assoc keys page.keys walked.more;
        end = elim walked.end [
          | inl (ended, same) ↦ inl (ended, ap front same ∙ ap (λ m. m ++ tail) all)
          | inr (i, c, at, lt, full, rest) ↦ inr (
            i,
            c,
            at,
            lt,
            full,
            append_assoc page.keys walked.more (rest_from remains (n - i) i c)
                ∙ ap front rest
                ∙ ap (λ m. m ++ tail) all,
          )
        ];
      }
