-- ===== src/Python/Split/Laws.antt =====
-- Laws of `partition`, `split` and `join`.
use fq_client_py.Prelude.{
  ℕ, ◌≡◌, ◌≢◌, refl, List, [], ◌∷◌, ◌++◌, Str, arith, All, All-append, append_assoc, ap, ◌∙◌,
}
use fq_client_py.Python.Split.{partition, split, join, cons_head}

-- No symbol of a text is the separator.
abbrev pub Lacks : ℕ → Str → Type 0
Lacks sep = All (λ c. c ≢ sep)

-- A text is cut at its first separator.
pub partition-append :
    (sep : ℕ) (s t : Str) → Lacks sep s → partition sep (s ++ sep ∷ t) ≡ (s, sep ∷ [], t)
unfolding partition
partition-append sep [] t h = ground arith
partition-append sep (c ∷ s) t h = ground (arith, partition-append sep s t h.1)

pub partition_missing : (sep : ℕ) (s : Str) → Lacks sep s → partition sep s ≡ (s, [], [])
unfolding partition
partition_missing sep [] h = refl
partition_missing sep (c ∷ s) h = ground (arith, partition_missing sep s h.1)

pub split-ne-nil : (sep : ℕ) (s : Str) → split sep s ≢ []
unfolding split
split-ne-nil sep [] = λ e. cc
split-ne-nil sep (c ∷ s) = ground (arith, split-ne-nil sep s)

pub split_lacking : (sep : ℕ) (s : Str) → Lacks sep s → split sep s ≡ s ∷ []
unfolding split
split_lacking sep [] h = refl
split_lacking sep (c ∷ s) h = ground (arith, split_lacking sep s h.1)

pub split-append : (sep : ℕ) (s t : Str) → Lacks sep s → split sep (s ++ sep ∷ t) ≡ s ∷ split sep t
unfolding split
split-append sep [] t h = ground arith
split-append sep (c ∷ s) t h = ground (arith, split-append sep s t h.1)

-- Splitting a join gives the parts back.
pub split-join :
    (sep : ℕ) (p : Str) (ps : List Str)
    → All (Lacks sep) (p ∷ ps)
    → split sep (join sep (p ∷ ps)) ≡ p ∷ ps
unfolding join
split-join sep p [] h = split_lacking sep p h.0
split-join sep p (q ∷ ps) h =
    split-append sep p (join sep (q ∷ ps)) h.0 ∙ ap (λ r. p ∷ r) (split-join sep q ps h.1)

join-cons_head :
    (sep c : ℕ) (parts : List Str) → parts ≢ [] → join sep (cons_head c parts) ≡ c ∷ join sep parts
unfolding join
join-cons_head sep c [] h = absurd (h refl)
join-cons_head sep c (p ∷ []) h = refl
join-cons_head sep c (p ∷ q ∷ ps) h = refl

join_empty_head :
    (sep : ℕ) (parts : List Str) → parts ≢ [] → join sep ([] ∷ parts) ≡ sep ∷ join sep parts
unfolding join
join_empty_head sep [] h = absurd (h refl)
join_empty_head sep (p ∷ ps) h = refl

-- Joining the parts of a split gives the text back.
pub join-split : (sep : ℕ) (s : Str) → join sep (split sep s) ≡ s
unfolding split
join-split sep [] = unfold join in refl
join-split sep (c ∷ s) = ground (
  arith,
  join-split sep s,
  split-ne-nil sep s,
  join-cons_head sep c (split sep s),
  join_empty_head sep (split sep s),
)

All-cons_head :
    (sep c : ℕ) (parts : List Str)
    → c ≢ sep
    → All (Lacks sep) parts
    → All (Lacks sep) (cons_head c parts)
All-cons_head sep c [] h ps = ((h, tt), tt)
All-cons_head sep c (p ∷ ps) h (hp, hps) = ((h, hp), hps)

-- No part of a split holds the separator.
pub split-Lacks : (sep : ℕ) (s : Str) → All (Lacks sep) (split sep s)
unfolding split
split-Lacks sep [] = (tt, tt)
split-Lacks sep (c ∷ s) = ground (arith, split-Lacks sep s, All-cons_head sep c (split sep s))

-- Two parts side by side read like one part that holds the separator.
pub join_merge :
    (sep : ℕ) (x y : Str) (zs : List Str) → join sep ((x ++ sep ∷ y) ∷ zs) ≡ join sep (x ∷ y ∷ zs)
unfolding join
join_merge sep x y [] = refl
join_merge sep x y (z ∷ zs) = append_assoc x (sep ∷ y) (sep ∷ join sep (z ∷ zs))

pub join_tail :
    (sep : ℕ) (p : Str) (qs rs : List Str)
    → qs ≢ []
    → rs ≢ []
    → join sep qs ≡ join sep rs
    → join sep (p ∷ qs) ≡ join sep (p ∷ rs)
unfolding join
join_tail sep p [] rs hq hr e = absurd (hq refl)
join_tail sep p (q ∷ qs) [] hq hr e = absurd (hr refl)
join_tail sep p (q ∷ qs) (r ∷ rs) hq hr e = ap (λ t. p ++ sep ∷ t) e

module _ {κ} (P : ℕ → Type κ) where
  pub join-All : (sep : ℕ) (ps : List Str) → P sep → All (All P) ps → All P (join sep ps)
  unfolding join
  join-All sep [] hs h = tt
  join-All sep (p ∷ []) hs h = h.0
  join-All sep (p ∷ q ∷ ps) hs h =
      All-append P p (sep ∷ join sep (q ∷ ps)) h.0 (hs, join-All sep (q ∷ ps) hs h.1)
