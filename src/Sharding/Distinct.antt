-- ===== src/Sharding/Distinct.antt =====
-- The grouping of fq/_sharding.py: no shard has two groups.
use fq_client_py.Prelude.{
  ℕ, suc, ◌≡◌, ◌⊎◌, inl, inr, subst, List, [], ◌∷◌, ◌++◌, Str, Bool, Bool-cases, ◌==◌,
  if◌then◌else◌, arith,
}
use fq_client_py.Errors.{Result, ok, bind-eq-ok}
use fq_client_py.Types.{CappingKey}
use fq_client_py.Sharding.{Grouped, append_to, group_from, group_by_shard}

-- The shard has a group.
abbrev pub HasGroup : Grouped → ℕ → Type 0
HasGroup [] s = ⊥
HasGroup ((s', items) ∷ rest) s = (s' ≡ s) ⊎ HasGroup rest s

abbrev pub Distinct : Grouped → Type 0
Distinct [] = Unit
Distinct ((s, items) ∷ rest) = (HasGroup rest s → ⊥) × Distinct rest

append_to-HasGroup :
    (s : ℕ) (item : ℕ × CappingKey) (g : Grouped) (t : ℕ)
    → HasGroup (append_to s item g) t
    → (s ≡ t) ⊎ HasGroup g t
unfolding append_to
append_to-HasGroup s item [] t h = h
append_to-HasGroup s item ((s', items) ∷ rest) t h =
    let result : Bool → Grouped =
      (λ b. if b then (s', items ++ item ∷ []) ∷ rest else (s', items) ∷ append_to s item rest) in
    elim (Bool-cases (s' == s)) [
      | inl e ↦ inr (subst (λ b. HasGroup (result b) t) e h)
      | inr e ↦ elim (subst (λ b. HasGroup (result b) t) e h) [
        | inl here ↦ inr (inl here)
        | inr later ↦ elim (append_to-HasGroup s item rest t later) [
          | inl same ↦ inl same
          | inr old ↦ inr (inr old)
        ]
      ]
    ]

append_to-Distinct :
    (s : ℕ) (item : ℕ × CappingKey) (g : Grouped) → Distinct g → Distinct (append_to s item g)
unfolding append_to
append_to-Distinct s item [] h = ((λ k. k), tt)
append_to-Distinct s item ((s', items) ∷ rest) (fresh, h) = elim (Bool-cases (s' == s)) [
  | inl e ↦ rw e (fresh, h)
  | inr e ↦ rw e (
    (λ k. elim (append_to-HasGroup s item rest s' k) [
      | inl same ↦ ground (arith, same, e)
      | inr old ↦ fresh old
    ]),
    append_to-Distinct s item rest h,
  )
]

group_from-Distinct :
    (resolve : Str → Result ℕ) (start : ℕ) (keys : List CappingKey) (g : Grouped) {g' : Grouped}
    → Distinct g
    → group_from resolve start keys g ≡ ok g'
    → Distinct g'
unfolding group_from
group_from-Distinct resolve start [] g {g'} h e = let same : g ≡ g' = cc e in subst Distinct same h
group_from-Distinct resolve start (k ∷ keys) g h e =
    let (s, es, rest) = bind-eq-ok (resolve k.key) _ e in
    group_from-Distinct resolve (suc start) keys (append_to s (start, k) g)
      (append_to-Distinct s (start, k) g h) rest

pub group_by_shard-Distinct :
    (resolve : Str → Result ℕ) (keys : List CappingKey) {g : Grouped}
    → group_by_shard keys resolve ≡ ok g
    → Distinct g
unfolding group_by_shard
group_by_shard-Distinct resolve keys e = group_from-Distinct resolve 0 keys [] tt e
