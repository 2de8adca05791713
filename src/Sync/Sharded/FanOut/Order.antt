-- ===== src/Sync/Sharded/FanOut/Order.antt =====
-- The order of the events that `_fan_out` of fq/sync/sharded.py yields.
use fq_client_py.Prelude.{
  ℕ, zero, suc, ◌≡◌, refl, ap, subst, sym, ◌∙◌, ◌⊎◌, inl, inr, Bool-cases, true, false, List, [],
  ◌∷◌, ◌++◌, append_assoc, append-nil, some, get_elem?, set, ◌==◌, ==-eq, get_elem?-set_self,
  get_elem?-set_ne, All, All-append, arith, if◌then◌else◌,
}
use fq_client_py.Sync.Sharded.Elements.{get_elem?-lt}
use fq_client_py.Sync.Sharded.FanOut.{
  Put, event, error, Worker, running, checking, returned, FanOut, phase_after, put_by, check_by,
  take_by, is_error, Step, puts, checks, takes, shuts, Run, rests, steps, workers_of, fan_out,
}

-- `xs` are a first part of `ys`.
abbrev pub Prefix {ℓ} : {A : Type ℓ} → List A → List A → Type ℓ
Prefix {A} xs ys = (rest : List A) × (xs ++ rest ≡ ys)

-- The entries of one shard, in order.
abbrev pub of_shard {ℓ} : {A : Type ℓ} → ℕ → List (ℕ × A) → List A
of_shard i [] = []
of_shard i ((j, a) ∷ rest) = if j == i then a ∷ of_shard i rest else of_shard i rest

module _ {T : Type 0} where
  of_shard-append :
      (i : ℕ) (xs ys : List (ℕ × Put T)) → of_shard i (xs ++ ys) ≡ of_shard i xs ++ of_shard i ys
  of_shard-append i [] ys = refl
  of_shard-append i ((j, p) ∷ xs) ys = ground (arith, of_shard-append i xs ys)

  of_shard-same : (i j : ℕ) (p : Put T) → (i == j) ≡ true → of_shard j ((i, p) ∷ []) ≡ p ∷ []
  of_shard-same i j p h = rw h

  of_shard-other : (i j : ℕ) (p : Put T) → (i == j) ≡ false → of_shard j ((i, p) ∷ []) ≡ []
  of_shard-other i j p h = rw h

  -- Of the stream of a shard, in order: what was taken, what is in the queue, what is to come.
  abbrev Split : ℕ → List (Put T) → FanOut T → Type 0
  Split i stream s =
      (w : Worker T) × (get_elem? s.workers i ≡ some w)
      × (of_shard i s.taken ++ (of_shard i s.queue ++ w.pending) ≡ stream)

  abbrev InOrder : List (List (Put T)) → FanOut T → Type 0
  InOrder streams s =
      (i : ℕ) (stream : List (Put T)) → get_elem? streams i ≡ some stream → Split i stream s

  -- A thread, after one of them was replaced.
  set-worker :
      (ws : List (Worker T)) (i j : ℕ) (old new w : Worker T)
      → get_elem? ws i ≡ some old
      → get_elem? ws j ≡ some w
      → (((i == j) ≡ true) × (w ≡ old) × (get_elem? (set ws i new) j ≡ some new))
        ⊎ (((i == j) ≡ false) × (get_elem? (set ws i new) j ≡ some w))
  set-worker ws i j old new w at found = elim (Bool-cases (i == j)) [
    | inl same ↦
        let eq = ==-eq i j same in
        let here = subst (λ x. get_elem? ws x ≡ some w) (sym eq) found in
        inl (
          same,
          cc (here, at),
          subst (λ x. get_elem? (set ws i new) x ≡ some new) eq
              (get_elem?-set_self ws i new (get_elem?-lt ws i at)),
        )
    | inr other ↦ inr (other, get_elem?-set_ne ws i j new (λ eq. ground arith) ∙ found)
  ]

  put_by-Split :
      (j : ℕ) (stream : List (Put T)) (i : ℕ) (p : Put T) (rest : List (Put T)) (s : FanOut T)
      → get_elem? s.workers i ≡ some (record { pending = p ∷ rest; phase = running })
      → Split j stream s
      → Split j stream (put_by i p rest s)
  put_by-Split j stream i p rest s at (w, found, split) =
      let new : Worker T = record { pending = rest; phase = phase_after p } in
      let front = of_shard j s.taken in
      let queue = of_shard-append j s.queue ((i, p) ∷ []) in
      elim (set-worker s.workers i j _ new w at found) [
        | inl (same, old, found') ↦ (
          new,
          found',
          ap (λ q. front ++ (q ++ rest))
                (queue ∙ ap (λ x. of_shard j s.queue ++ x) (of_shard-same i j p same))
              ∙ ap (λ x. front ++ x) (append_assoc (of_shard j s.queue) (p ∷ []) rest)
              ∙ ap (λ (v : Worker T). front ++ (of_shard j s.queue ++ v.pending)) (sym old)
              ∙ split,
        )
        | inr (other, found') ↦ (
          w,
          found',
          ap (λ q. front ++ (q ++ w.pending))
                (queue
                  ∙ ap (λ x. of_shard j s.queue ++ x) (of_shard-other i j p other)
                  ∙ append-nil (of_shard j s.queue))
              ∙ split,
        )
      ]

  check_by-Split :
      (j : ℕ) (stream : List (Put T)) (i : ℕ) (rest : List (Put T)) (s : FanOut T)
      → get_elem? s.workers i ≡ some (record { pending = rest; phase = checking })
      → Split j stream s
      → Split j stream (check_by i rest s)
  check_by-Split j stream i rest s at (w, found, split) =
      let new : Worker T = record {
        pending = rest;
        phase = if s.stopped then returned else running;
      } in
      elim (set-worker s.workers i j _ new w at found) [
        | inl (same, old, found') ↦ (
          new,
          found',
          ap (λ (v : Worker T). of_shard j s.taken ++ (of_shard j s.queue ++ v.pending)) (sym old)
              ∙ split,
        )
        | inr (other, found') ↦ (w, found', split)
      ]

  take_by-Split :
      (j : ℕ) (stream : List (Put T)) (head : ℕ × Put T) (rest : List (ℕ × Put T)) (s : FanOut T)
      → s.queue ≡ head ∷ rest
      → Split j stream s
      → Split j stream (take_by head rest s)
  take_by-Split j stream head rest s at (w, found, split) = (
    w,
    found,
    ap (λ t. t ++ (of_shard j rest ++ w.pending)) (of_shard-append j s.taken (head ∷ []))
        ∙ append_assoc (of_shard j s.taken) (of_shard j (head ∷ [])) (of_shard j rest ++ w.pending)
        ∙ ap (λ t. of_shard j s.taken ++ t)
            (sym (append_assoc (of_shard j (head ∷ [])) (of_shard j rest) w.pending)
              ∙ ap (λ q. q ++ w.pending)
                  (sym (of_shard-append j (head ∷ []) rest) ∙ ap (of_shard j) (sym at)))
        ∙ split,
  )

  Step-InOrder :
      (streams : List (List (Put T))) {s t : FanOut T}
      → Step s t
      → InOrder streams s
      → InOrder streams t
  Step-InOrder streams {s} (puts i p rest at) h j stream e =
      put_by-Split j stream i p rest s at (h j stream e)
  Step-InOrder streams {s} (checks i rest at) h j stream e =
      check_by-Split j stream i rest s at (h j stream e)
  Step-InOrder streams {s} (takes head rest at going) h j stream e =
      take_by-Split j stream head rest s at (h j stream e)
  Step-InOrder streams (shuts going) h j stream e = h j stream e

  Run-InOrder :
      (streams : List (List (Put T))) {s t : FanOut T}
      → Run s t
      → InOrder streams s
      → InOrder streams t
  Run-InOrder streams rests h = h
  Run-InOrder streams (steps x run) h = Run-InOrder streams run (Step-InOrder streams x h)

  abbrev AllEvents : List (ℕ × Put T) → Type 0
  AllEvents = All (λ entry. is_error entry.1 ≡ false)

  -- Every entry that was taken is an event; or the last is an exception, and the flag is set.
  abbrev pub Calm : FanOut T → Type 0
  Calm s =
      AllEvents s.taken
      ⊎ ((before : List (ℕ × Put T)) × (last : ℕ × Put T) × (s.taken ≡ before ++ last ∷ [])
          × AllEvents before
          × (s.stopped ≡ true))

  taken-Calm :
      (head : ℕ × Put T) (rest : List (ℕ × Put T)) (s : FanOut T)
      → AllEvents s.taken
      → Calm (take_by head rest s)
  taken-Calm (i, event e) rest s h =
      inl (All-append (λ entry. is_error entry.1 ≡ false) s.taken ((i, event e) ∷ []) h (refl, tt))
  taken-Calm (i, error x) rest s h = inr (s.taken, (i, error x), refl, h, refl)

  Step-Calm : {s t : FanOut T} → Step s t → Calm s → Calm t
  Step-Calm (puts i p rest at) h = h
  Step-Calm (checks i rest at) h = h
  Step-Calm {s} (takes head rest at going) (inl h) = taken-Calm head rest s h
  Step-Calm (takes head rest at going) (inr (before, last, same, h, stopped)) =
      absurd (cc (going, stopped))
  Step-Calm (shuts going) (inl h) = inl h
  Step-Calm (shuts going) (inr (before, last, same, h, stopped)) = inr (before, last, same, h, refl)

  Run-Calm : {s t : FanOut T} → Run s t → Calm s → Calm t
  Run-Calm rests h = h
  Run-Calm (steps x run) h = Run-Calm run (Step-Calm x h)

  fan_out-Split :
      (streams : List (List (Put T))) (i : ℕ) (stream : List (Put T))
      → get_elem? streams i ≡ some stream
      → (w : Worker T) × (get_elem? (workers_of streams) i ≡ some w) × (w.pending ≡ stream)
  fan_out-Split [] i stream h = absurd (cc h)
  fan_out-Split (p ∷ streams) zero stream h = (record { pending = p; phase = running }, refl, cc h)
  fan_out-Split (p ∷ streams) (suc i) stream h = fan_out-Split streams i stream h

  -- However the threads and the caller take turns: what the caller has taken of the entries of a shard
  -- is, in order, a first part of what the stream of the shard gave, with nothing lost or repeated
  -- before it; all that it has taken are events, but that the last may be an exception, and then the
  -- flag is set.
  pub Run-Prefix :
      (streams : List (List (Put T))) {s : FanOut T}
      → Run (fan_out streams) s
      → (i : ℕ) (stream : List (Put T)) → get_elem? streams i ≡ some stream
      → Prefix (of_shard i s.taken) stream × Calm s
  Run-Prefix streams {s} run i stream h =
      let (w, found, split) =
        Run-InOrder streams run (λ j t e. fan_out-Split streams j t e) i stream h in
      ((of_shard i s.queue ++ w.pending, split), Run-Calm run (inl tt))
