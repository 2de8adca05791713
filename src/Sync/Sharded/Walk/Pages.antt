-- ===== src/Sync/Sharded/Walk/Pages.antt =====
-- `_walk` of fq/sync/sharded.py: a scan over all shards promises what a scan of one shard promises.
use fq_client_py.Prelude.{
  ℕ, refl, ◌-◌, ◌≤◌, ◌<◌, ◌≡◌, ◌≢◌, ap, subst, sym, ◌∙◌, inl, inr, true, false, List, [], ◌∷◌, ◌++◌,
  Option, some, Str, ℤ, pos, length, str_eq, str_eq_refl, arith,
}
use fq_client_py.Errors.{Result, ok, raise}
use fq_client_py.Exec.{Exec}
use fq_client_py.Python.Decimal.{CharacterData, decimal}
use fq_client_py.Python.Decimal.Read.{KnowsAscii}
use fq_client_py.Types.{ScanKey, ScanResult, scan_cursor_initial, max_value}
use fq_client_py.Responses.Numbers.{max_value-Fits}
use fq_client_py.Sharding.{shard_cursor_separator, parse_shard_cursor, make_shard_cursor}
use fq_client_py.Sharding.Cursor.{
  composite-ne-initial, parse_shard_cursor-make_shard_cursor, parse_shard_cursor-lt,
}
use fq_client_py.Sync.Sharded.{walk}
use fq_client_py.Sync.Sharded.Walk.{Remains, Cut, rest_from, Walked}
use fq_client_py.Sync.Sharded.Walk.Loop.{Scans, walk_from-Walked}

abbrev pub rest_of : (ℕ → Remains) → ℕ → Result (ℕ × Str) → List ScanKey
rest_of remains n (ok (index, cursor)) = rest_from remains (n - index) index cursor
rest_of remains n (raise e) = []

-- What is left to scan from a composite cursor: the rest of its shard, and the shards behind it.
abbrev pub composite_rest : CharacterData → (ℕ → Remains) → ℕ → Remains
composite_rest u remains n cursor = rest_of remains n (parse_shard_cursor u cursor n)

append-ne-nil : {A : Type 0} (xs : List A) (y : A) (ys : List A) → xs ++ y ∷ ys ≢ []
append-ne-nil [] y ys = λ e. cc e
append-ne-nil (x ∷ xs) y ys = λ e. cc e

make_shard_cursor-ne-initial :
    (i n : ℕ) (c : Str)
    → i < n
    → (str_eq (make_shard_cursor i c n) scan_cursor_initial ≡ false)
      × (make_shard_cursor i c n ≢ [])
unfolding make_shard_cursor
make_shard_cursor-ne-initial i n c lt =
    ground (
      arith,
      composite-ne-initial (decimal i) c,
      append-ne-nil (decimal i) shard_cursor_separator c,
    )

module _ {S : Type 0} (remains : ℕ → Remains) (scan_shard : Str → ℤ → Exec S (Option ScanResult))
    (u : CharacterData) (ascii : KnowsAscii u) where
  Walked-Cut :
      (n count index : ℕ) (cursor inner : Str) (result : ScanResult)
      → n ≤ max_value
      → parse_shard_cursor u cursor n ≡ ok (index, inner)
      → Walked remains scan_shard n count (n - index) index inner [] result
      → Cut (composite_rest u remains n) cursor result
  Walked-Cut n count index cursor inner result small parsed walked = elim walked.end [
    | inl (ended, all) ↦ inl (
      subst (λ c. str_eq c scan_cursor_initial ≡ true) (sym ended)
          (str_eq_refl scan_cursor_initial),
      walked.found ∙ all ∙ ap (rest_of remains n) (sym parsed),
    )
    | inr (i, c, at, lt, full, rest) ↦
        let (other, nonempty) = make_shard_cursor-ne-initial i n c lt in
        let reparsed =
          parse_shard_cursor-make_shard_cursor u ascii i n c lt
            (max_value-Fits i (omega (arith, lt, small))) full in
        inr (
          subst (λ c. str_eq c scan_cursor_initial ≡ false) (sym at) other,
          subst (λ c. c ≢ []) (sym at) nonempty,
          ap (λ m. m ++ composite_rest u remains n result.cursor) walked.found
              ∙ ap (λ c. walked.more ++ composite_rest u remains n c) at
              ∙ ap (λ r. walked.more ++ rest_of remains n r) reparsed
              ∙ rest
              ∙ ap (rest_of remains n) (sym parsed),
        )
  ]

  -- With a character database that knows the ASCII digits: if each shard answers the one scan that the walk may ask of it, from the cursor that was given or
  -- the initial one, and for a positive count that is at most that of the walk, with a page that, with
  -- what is left from the cursor of the page, is what was left from its own cursor: then so does the
  -- walk over the shards, at most MAX_VALUE of them, from a cursor that it accepts and for its positive
  -- count. It returns, and the keys of its page, with what is left from its cursor on that shard and the
  -- shards behind, are what was left; and where it returns the initial cursor nothing is left.
  pub walk-Cut :
      (count : ℕ) (cursor : Str) (shards : List S) {index : ℕ} {inner : Str}
      → 0 < count
      → 0 < length shards
      → length shards ≤ max_value
      → parse_shard_cursor u cursor (length shards) ≡ ok (index, inner)
      → Scans remains scan_shard shards count index inner
      → (result : ScanResult) × (shards' : List S) × (walk scan_shard u cursor (pos count) shards
          ≡ (ok (some result), shards'))
        × Cut (composite_rest u remains (length shards)) cursor result
  unfolding walk
  walk-Cut count cursor shards {index} {inner} positive nonempty small parsed scans =
      let n = length shards in
      let (lt, full) = parse_shard_cursor-lt u cursor n nonempty parsed in
      let (result, shards', runs, walked) =
        walk_from-Walked remains scan_shard shards n count index inner scans (n - index) index inner
          [] shards refl (omega (arith, lt)) (inl positive) (inl (refl, refl)) (λ i h. refl) in
      (
        result,
        shards',
        rw parsed runs,
        Walked-Cut n count index cursor inner result small parsed walked,
      )
