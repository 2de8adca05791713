-- ===== src/Sharding/Groups.antt =====
-- The grouping of fq/_sharding.py: each key stands in the group of its shard, with its position.
use fq_client_py.Prelude.{
  subst, sym, ==-eq, length-append, ℕ, zero, suc, ◌+◌, ◌≡◌, refl, ◌⊎◌, inl, inr, Bool-cases, ◌==◌,
  List, [], ◌∷◌, ◌++◌, some, Str, length, get_elem?, All, All-append, arith,
}
use fq_client_py.Errors.{Result, ok, bind-eq-ok}
use fq_client_py.Types.{CappingKey}
use fq_client_py.Sharding.{Grouped, append_to, group_from, group_by_shard}

abbrev pub Item : Type 0
Item = ℕ × CappingKey

-- A statement on the shard, the position and the key of every item.
abbrev pub AllItems : (ℕ → ℕ → CappingKey → Type 0) → Grouped → Type 0
AllItems P = All (λ group. All (λ item. P group.0 item.0 item.1) group.1)

abbrev pub HasItem : List Item → ℕ → CappingKey → Type 0
HasItem [] p k = ⊥
HasItem ((p', k') ∷ items) p k = ((p' ≡ p) × (k' ≡ k)) ⊎ HasItem items p k

-- The key stands with its position in the group of the shard.
abbrev pub Has : Grouped → ℕ → ℕ → CappingKey → Type 0
Has [] s p k = ⊥
Has ((s', items) ∷ rest) s p k = ((s' ≡ s) × HasItem items p k) ⊎ Has rest s p k

abbrev pub count_items : Grouped → ℕ
count_items [] = 0
count_items ((s, items) ∷ rest) = length items + count_items rest

module _ (P : ℕ → ℕ → CappingKey → Type 0) where
  append_to-AllItems :
      (s p : ℕ) (k : CappingKey) (g : Grouped)
      → P s p k
      → AllItems P g
      → AllItems P (append_to s (p, k) g)
  unfolding append_to
  append_to-AllItems s p k [] new old = ((new, tt), tt)
  append_to-AllItems s p k ((s', items) ∷ rest) new (here, later) = elim (Bool-cases (s' == s)) [
    | inl e ↦ rw e (
      All-append (λ item. P s' item.0 item.1) items ((p, k) ∷ []) here
          (subst (λ t. P t p k) (sym (==-eq s' s e)) new, tt),
      later,
    )
    | inr e ↦ rw e (here, append_to-AllItems s p k rest new later)
  ]

  group_from-AllItems :
      (resolve : Str → Result ℕ) (start : ℕ) (keys : List CappingKey) (g : Grouped) {g' : Grouped}
      → ((i s : ℕ) (k : CappingKey)
          → get_elem? keys i ≡ some k
          → resolve k.key ≡ ok s
          → P s (start + i) k)
      → AllItems P g
      → group_from resolve start keys g ≡ ok g'
      → AllItems P g'
  unfolding group_from
  group_from-AllItems resolve start [] g new old e = ground arith
  group_from-AllItems resolve start (k ∷ keys) g new old e =
      let (s, es, rest) = bind-eq-ok (resolve k.key) _ e in
      group_from-AllItems resolve (suc start) keys (append_to s (start, k) g)
        (λ i s' k' ei er. subst (λ t. P s' t k') (omega arith) (new (suc i) s' k' ei er))
        (append_to-AllItems s start k g (subst (λ t. P s t k) (omega arith) (new zero s k refl es))
          old)
        rest

HasItem-append : (items : List Item) (p : ℕ) (k : CappingKey) → HasItem (items ++ (p, k) ∷ []) p k
HasItem-append [] p k = inl (refl, refl)
HasItem-append (i ∷ items) p k = inr (HasItem-append items p k)

HasItem-old :
    (items more : List Item) (p : ℕ) (k : CappingKey)
    → HasItem items p k
    → HasItem (items ++ more) p k
HasItem-old (i ∷ items) more p k (inl h) = inl h
HasItem-old (i ∷ items) more p k (inr h) = inr (HasItem-old items more p k h)
HasItem-old [] more p k h = absurd h

append_to-Has : (s p : ℕ) (k : CappingKey) (g : Grouped) → Has (append_to s (p, k) g) s p k
unfolding append_to
append_to-Has s p k [] = inl (refl, inl (refl, refl))
append_to-Has s p k ((s', items) ∷ rest) =
    ground (arith, HasItem-append items p k, append_to-Has s p k rest)

append_to-Has_old :
    (s p : ℕ) (k : CappingKey) (g : Grouped) (s' p' : ℕ) (k' : CappingKey)
    → Has g s' p' k'
    → Has (append_to s (p, k) g) s' p' k'
unfolding append_to
append_to-Has_old s p k [] s' p' k' h = absurd h
append_to-Has_old s p k ((t, items) ∷ rest) s' p' k' h =
    ground (arith, HasItem-old items ((p, k) ∷ []) p' k', append_to-Has_old s p k rest s' p' k')

group_from-Has_old :
    (resolve : Str → Result ℕ) (start : ℕ) (keys : List CappingKey) (g : Grouped) {g' : Grouped}
    → group_from resolve start keys g ≡ ok g'
    → (s p : ℕ) (k : CappingKey) → Has g s p k
    → Has g' s p k
unfolding group_from
group_from-Has_old resolve start [] g e s p k h = subst (λ t. Has t s p k) (ground arith) h
group_from-Has_old resolve start (x ∷ keys) g e s p k h =
    let (t, et, rest) = bind-eq-ok (resolve x.key) _ e in
    group_from-Has_old resolve (suc start) keys (append_to t (start, x) g) rest s p k
      (append_to-Has_old t start x g s p k h)

group_from-Has :
    (resolve : Str → Result ℕ) (start : ℕ) (keys : List CappingKey) (g : Grouped) {g' : Grouped}
    → group_from resolve start keys g ≡ ok g'
    → (i : ℕ) (k : CappingKey) → get_elem? keys i ≡ some k
    → (s : ℕ) × (resolve k.key ≡ ok s) × Has g' s (start + i) k
unfolding group_from
group_from-Has resolve start [] g e i k h = cc
group_from-Has resolve start (x ∷ keys) g {g'} e zero k h =
    let (t, et, rest) = bind-eq-ok (resolve x.key) _ e in
    let same : x ≡ k = ground arith in
    (
      t,
      subst (λ y. resolve y.key ≡ ok t) same et,
      subst (λ y. Has g' t y k) (omega arith)
          (subst (λ y. Has g' t start y) same
            (group_from-Has_old resolve (suc start) keys (append_to t (start, x) g) rest t start x
              (append_to-Has t start x g))),
    )
group_from-Has resolve start (x ∷ keys) g {g'} e (suc i) k h =
    let (t, et, rest) = bind-eq-ok (resolve x.key) _ e in
    let (s, es, has) =
      group_from-Has resolve (suc start) keys (append_to t (start, x) g) rest i k h in
    (s, es, subst (λ y. Has g' s y k) (omega arith) has)

count_items-append_to :
    (s : ℕ) (item : Item) (g : Grouped) → count_items (append_to s item g) ≡ suc (count_items g)
unfolding append_to
count_items-append_to s item [] = refl
count_items-append_to s item ((s', items) ∷ rest) =
    ground (arith, length-append items (item ∷ []), count_items-append_to s item rest)

count_items-group_from :
    (resolve : Str → Result ℕ) (start : ℕ) (keys : List CappingKey) (g : Grouped) {g' : Grouped}
    → group_from resolve start keys g ≡ ok g'
    → count_items g' ≡ length keys + count_items g
unfolding group_from
count_items-group_from resolve start [] g e = ground arith
count_items-group_from resolve start (k ∷ keys) g e =
    let (s, es, rest) = bind-eq-ok (resolve k.key) _ e in
    omega (
      arith,
      count_items-group_from resolve (suc start) keys (append_to s (start, k) g) rest,
      count_items-append_to s (start, k) g,
    )

-- What a grouping of keys is: every item is a key at its own position, in the group of its shard;
-- every key is there; and there are no more items than keys.
pub record IsGrouping (keys : List CappingKey) (resolve : Str → Result ℕ) (g : Grouped)
    : Type 0 where
  pub sound : AllItems (λ s p k. (get_elem? keys p ≡ some k) × (resolve k.key ≡ ok s)) g
  pub complete :
      (p : ℕ) (k : CappingKey)
      → get_elem? keys p ≡ some k
      → (s : ℕ) × (resolve k.key ≡ ok s) × Has g s p k
  pub counted : count_items g ≡ length keys

-- If every key has a shard, the keys are grouped: each stands once, at the position that it has in
-- the input, in the group of its shard, and nothing else stands there.
pub group_by_shard-IsGrouping :
    (keys : List CappingKey) (resolve : Str → Result ℕ) {g : Grouped}
    → group_by_shard keys resolve ≡ ok g
    → IsGrouping keys resolve g
unfolding group_by_shard
group_by_shard-IsGrouping keys resolve {g} e = record {
  sound =
      group_from-AllItems (λ s p k. (get_elem? keys p ≡ some k) × (resolve k.key ≡ ok s)) resolve 0
        keys [] (λ i s k ei es. (subst (λ t. get_elem? keys t ≡ some k) (omega arith) ei, es)) tt e;
  complete = λ p k h.
      let (s, es, has) = group_from-Has resolve 0 keys [] e p k h in
      (s, es, subst (λ y. Has g s y k) (omega arith) has);
  counted = omega (arith, count_items-group_from resolve 0 keys [] e);
}
