-- ===== src/Python/Split.antt =====
-- `partition`, `rpartition`, `split` and `join` of `str` and `bytes`, at a separator of one symbol.
pub mod Laws
pub mod Lengths
use fq_client_py.Prelude.{ℕ, List, [], ◌∷◌, ◌++◌, Str, ◌==◌, if◌then◌else◌}

abbrev pub cons_head : ℕ → List Str → List Str
cons_head c [] = (c ∷ []) ∷ []
cons_head c (part ∷ parts) = (c ∷ part) ∷ parts

abbrev pub before : ℕ → Str × Str × Str → Str × Str × Str
before c (head, sep, tail) = (c ∷ head, sep, tail)

-- `s.partition(sep)`: the whole text and two empty ones where the separator is missing.
unfoldable pub partition : ℕ → Str → Str × Str × Str
partition sep [] = ([], [], [])
partition sep (c ∷ s) =
    let rest = before c (partition sep s) in if c == sep then ([], sep ∷ [], s) else rest

-- One step of `rpartition`, which looks for the last separator.
abbrev pub rpartition_step : ℕ → ℕ → Str → Str × Str × Str → Str × Str × Str
rpartition_step sep c s (head, [], tail) =
    if c == sep then ([], sep ∷ [], s) else ([], [], c ∷ tail)
rpartition_step sep c s (head, found ∷ _, tail) = (c ∷ head, found ∷ [], tail)

-- `s.rpartition(sep)`: two empty texts and the whole one where the separator is missing.
unfoldable pub rpartition : ℕ → Str → Str × Str × Str
rpartition sep [] = ([], [], [])
rpartition sep (c ∷ s) = rpartition_step sep c s (rpartition sep s)

-- `s.split(sep)`
unfoldable pub split : ℕ → Str → List Str
split sep [] = [] ∷ []
split sep (c ∷ s) = let rest = split sep s in if c == sep then [] ∷ rest else cons_head c rest

-- `sep.join(parts)`
unfoldable pub join : ℕ → List Str → Str
join sep [] = []
join sep (p ∷ []) = p
join sep (p ∷ q ∷ ps) = p ++ sep ∷ join sep (q ∷ ps)
