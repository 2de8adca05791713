-- ===== src/Python/Split/Lengths.antt =====
-- The parts that `partition` and `split` make are no longer than the text.
use fq_client_py.Prelude.{
  ℕ, suc, ◌≤◌, ◌==◌, Bool-cases, inl, inr, List, [], ◌∷◌, Str, arith, All, length,
}
use fq_client_py.Python.Split.{partition, split, cons_head}

abbrev pub AtMost : ℕ → Str → Type 0
AtMost n s = length s ≤ n

pub partition-AtMost :
    (sep : ℕ) (s : Str)
    → AtMost (length s) (partition sep s).0 × AtMost (length s) (partition sep s).2
unfolding partition
partition-AtMost sep [] = ground arith
partition-AtMost sep (c ∷ s) = ground (arith, partition-AtMost sep s)

pub All-AtMost-mono :
    (m n : ℕ) (parts : List Str) → m ≤ n → All (AtMost m) parts → All (AtMost n) parts
All-AtMost-mono m n [] h k = tt
All-AtMost-mono m n (p ∷ ps) h (hp, hps) = (omega arith, All-AtMost-mono m n ps h hps)

cons_head-AtMost :
    (c n : ℕ) (parts : List Str) → All (AtMost n) parts → All (AtMost (suc n)) (cons_head c parts)
cons_head-AtMost c n [] h = (omega arith, tt)
cons_head-AtMost c n (p ∷ ps) (hp, hps) =
    (omega arith, All-AtMost-mono n (suc n) ps (omega arith) hps)

pub split-AtMost : (sep : ℕ) (s : Str) → All (AtMost (length s)) (split sep s)
unfolding split
split-AtMost sep [] = (omega arith, tt)
split-AtMost sep (c ∷ s) = elim (Bool-cases (c == sep)) [
  | inl e ↦ rw e (
    omega arith,
    All-AtMost-mono (length s) (suc (length s)) (split sep s) (omega arith) (split-AtMost sep s),
  )
  | inr e ↦ rw e (cons_head-AtMost c (length s) (split sep s) (split-AtMost sep s))
]
