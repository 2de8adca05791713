-- ===== src/Commands/Words.antt =====
-- The words of a command of fq/_commands.py: when its payload gives them back, and what a space
-- inside a key does.
use fq_client_py.Prelude.{
  inl, inr, ◌≡◌, ◌∙◌, sym, List, [], ◌∷◌, ◌++◌, append_assoc, none, some, Str, Bytes, ℤ, All, arith,
}
use fq_client_py.Errors.{ok, ◌>>=◌, Result-cases}
use fq_client_py.Python.Split.{split, join}
use fq_client_py.Python.Split.Laws.{Lacks, split-join, join-All}
use fq_client_py.Python.Utf8.{encode, decode}
use fq_client_py.Python.Utf8.Laws.{decode-encode, IsCodePoint}
use fq_client_py.Python.Decimal.{str_int}
use fq_client_py.Types.{CappingKey}
use fq_client_py.Commands.{
  Part, space, str_parts, join_parts, mdelete, key_parts, mutating_command, quota_acquire_n,
}

-- A text of code points with no space in it.
abbrev pub IsWord : Str → Type 0
IsWord s = All IsCodePoint s × Lacks space s

code_points : (ws : List Str) → All IsWord ws → All (All IsCodePoint) ws
code_points [] h = tt
code_points (w ∷ ws) h = (h.0.0, code_points ws h.1)

no_spaces : (ws : List Str) → All IsWord ws → All (Lacks space) ws
no_spaces [] h = tt
no_spaces (w ∷ ws) h = (h.0.1, no_spaces ws h.1)

-- The payload of a command whose words hold no space, decoded and cut at its spaces, is the words
-- that it was made of.
pub split-join_parts :
    (w : Str) (ws : List Str) (parts : List Part) {payload : Bytes}
    → str_parts parts ≡ ok (w ∷ ws)
    → All IsWord (w ∷ ws)
    → join_parts parts ≡ ok payload
    → split space (decode payload) ≡ w ∷ ws
unfolding join_parts
split-join_parts w ws parts {payload} e h p =
    let line : Str = join space (w ∷ ws) in
    let encoded : encode line ≡ ok payload = rw (e, ◌>>=◌) at p in
    let points : All IsCodePoint line =
      join-All IsCodePoint space (w ∷ ws) (omega arith) (code_points (w ∷ ws) h) in
    rw (decode-encode line payload points encoded) (split-join space w ws (no_spaces (w ∷ ws) h))

-- Two commands whose words hold no space have one payload only if their words are the same.
pub join_parts_injective :
    (w v : Str) (ws vs : List Str) (ps qs : List Part) {payload : Bytes}
    → str_parts ps ≡ ok (w ∷ ws)
    → str_parts qs ≡ ok (v ∷ vs)
    → All IsWord (w ∷ ws)
    → All IsWord (v ∷ vs)
    → join_parts ps ≡ ok payload
    → join_parts qs ≡ ok payload
    → w ∷ ws ≡ v ∷ vs
join_parts_injective w v ws vs ps qs ep eq hw hv jp jq =
    sym (split-join_parts w ws ps ep hw jp) ∙ split-join_parts v vs qs eq hv jq

-- A client id that ends in a space and a printed number takes that number for a time to live:
-- the payload is the one of the shorter id with this ttl.
pub quota_acquire_n-space :
    (name client_id s : Str) (ttl : ℤ)
    → str_int ttl ≡ ok s
    → quota_acquire_n name (client_id ++ space ∷ s) none ≡ quota_acquire_n name client_id (some ttl)
unfolding quota_acquire_n mutating_command join_parts str_parts join
quota_acquire_n-space name client_id s ttl e = rw e

-- A key that holds a space, a printed number, a space and a further key makes `mdelete` send the
-- command of two keys: the first with that number for its window, and the further one.
pub mdelete-space :
    (key key' s : Str) (capping capping' : ℤ) (keys : List CappingKey)
    → str_int capping ≡ ok s
    → mdelete (record { key = key ++ space ∷ s ++ space ∷ key'; capping = capping' } ∷ keys)
      ≡ mdelete (
          record { key = key; capping = capping }
          ∷ record { key = key'; capping = capping' }
          ∷ keys)
unfolding mdelete mutating_command join_parts str_parts join
mdelete-space key key' s capping capping' keys e = elim (Result-cases (str_int capping')) [
  | inl (t, et) ↦ elim (Result-cases (str_parts (key_parts keys))) [
    | inl (ws, ews) ↦ rw (e, et, ews) (simp append_assoc)
    | inr (x, ex) ↦ rw (e, et, ex)
  ]
  | inr (x, ex) ↦ rw (e, ex)
]
