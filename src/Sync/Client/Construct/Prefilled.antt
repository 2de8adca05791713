-- ===== src/Sync/Client/Construct/Prefilled.antt =====
-- The pool of a client of fq/sync/client.py that has been constructed.
use fq_client_py.Prelude.{
  ℕ, zero, suc, ◌+◌, ◌≤◌, ◌⊎◌, ◌≡◌, refl, ap, subst, sym, ◌∙◌, false, List, [], ◌∷◌, ◌++◌, Option,
  none, some, Str, Bool, length, length-append, length-replicate, replicate, arith, inl, inr,
}
use fq_client_py.Errors.{Result, ok, raise, value_error}
use fq_client_py.Exec.{Exec, lift}
use fq_client_py.Exec.Inversion.{bind-eq-ok, ends-cases}
use fq_client_py.Floats.{Floats}
use fq_client_py.World.{World}
use fq_client_py.Reconnect.{new_deadline}
use fq_client_py.Sync.Connection.{Connection}
use fq_client_py.Types.Tls.{TlsConfig, SslContext, Files}
use fq_client_py.Sync.Pool.{Pool, new_pool, drop_slot, put_all}
use fq_client_py.Sync.Client.{Client, Settings}
use fq_client_py.Sync.Client.Slots.{
  OpenWith, Fixed, Fixed-bind, Fixed-world, hold-Fixed, on_lease-Returning,
}
use fq_client_py.Sync.Client.Construct.{
  factory, opened_one, fill_slots, prefill_client, greet, discarded, started, new_client, construct,
  context_of, with_context, is_some,
}

module _ {fl : Floats} (cfg : Settings fl) where
  -- Where the loop of `prefill` ends with a connection for each of the slots of an open pool.
  abbrev Filled : ℕ → List (Connection fl) → Pool (Connection fl) → Type 0
  Filled n os p = (p.is_closed ≡ false) × (length os ≡ n) × (p.slots ≡ [])

  opened_one-cases :
      (rest : List (Connection fl) → Exec (Client fl) (List (Connection fl)))
      (opened : List (Connection fl)) (s t : Client fl) (r : Result (Connection fl) × World fl)
      {os : List (Connection fl)}
      → opened_one fl cfg rest opened s r ≡ (ok os, t)
      → (c : Connection fl) × (w : World fl) × (rest (opened ++ c ∷ []) (record s { world = w })
          ≡ (ok os, t))
  opened_one-cases rest opened s t (ok c, w) e = (c, w, e)
  opened_one-cases rest opened s t (raise x, w) e = absurd (cc (ap (λ r. r.0) e))

  nil_of_length : {A : Type 0} (xs : List A) → length xs ≡ 0 → xs ≡ []
  nil_of_length [] h = refl
  nil_of_length (x ∷ xs) h = absurd (omega (arith, h))

  length-drop_slot :
      (n : ℕ) (slots : List (Option (Connection fl)))
      → length slots ≡ suc n
      → length (drop_slot slots) ≡ n
  length-drop_slot n [] h = absurd (omega (arith, h))
  length-drop_slot n (slot ∷ slots) h = omega (arith, h)

  fill_slots-Filled :
      (n : ℕ) (opened : List (Connection fl)) (s t : Client fl) {os : List (Connection fl)}
      → s.pool.is_closed ≡ false
      → length s.pool.slots ≡ n
      → fill_slots fl cfg n opened s ≡ (ok os, t)
      → Filled (length opened + n) os t.pool
  unfolding fill_slots
  fill_slots-Filled zero opened s t {os} h k e =
      let same : s ≡ t = ap (λ r. r.1) e in
      let all_opened : opened ≡ os = cc (ap (λ r. r.0) e) in
      subst (λ x. Filled (length opened + 0) os x.pool) same
        (h, omega (arith, ap length all_opened), nil_of_length s.pool.slots k)
  fill_slots-Filled (suc n) opened s t {os} h k e =
      let left = record s { pool = record s.pool { slots = drop_slot s.pool.slots } } in
      let (c, w, later) =
        opened_one-cases (fill_slots fl cfg n) opened left t (factory fl cfg s.world) e in
      let (open_pool, count, none_left) =
        fill_slots-Filled n (opened ++ c ∷ []) (record left { world = w }) t h
          (length-drop_slot n s.pool.slots k) later in
      (open_pool, omega (arith, count, length-append opened (c ∷ [])), none_left)

  length-put_all :
      (os : List (Connection fl)) (p : Pool (Connection fl))
      → length (put_all os p).slots ≡ length os + length p.slots
  length-put_all [] p = omega arith
  length-put_all (c ∷ os) p =
      omega (arith, length-put_all os (record p { slots = some c ∷ p.slots }))

  is_closed-put_all :
      (os : List (Connection fl)) (p : Pool (Connection fl))
      → (put_all os p).is_closed ≡ p.is_closed
  is_closed-put_all [] p = refl
  is_closed-put_all (c ∷ os) p = is_closed-put_all os (record p { slots = some c ∷ p.slots })

  greet-Fixed : Fixed (greet fl cfg)
  unfolding greet
  greet-Fixed =
      Fixed-bind _ _ (Fixed-world (new_deadline fl (some cfg.config.connect_timeout)))
        λ d. hold-Fixed _ (λ c. on_lease-Returning c _) cfg d

  prefill_client-OpenWith :
      (s t : Client fl)
      → s.pool.is_closed ≡ false
      → length s.pool.slots ≡ s.pool.size
      → prefill_client fl cfg s ≡ (ok tt, t)
      → OpenWith s.pool.size t
  unfolding prefill_client
  prefill_client-OpenWith s t h k e =
      let (os, u, filled, back) = bind-eq-ok _ (fill_slots fl cfg s.pool.size []) s e in
      let (open_pool, count, none_left) = fill_slots-Filled s.pool.size [] s u h k filled in
      subst (λ x. OpenWith s.pool.size x) (ap (λ r. r.1) back)
        (
          is_closed-put_all os u.pool ∙ open_pool,
          omega (arith, length-put_all os u.pool, count, ap length none_left),
        )

  discarded-ok :
      (r : Result (Str × Bool) × Client fl) {c : Client fl} {role : Str} {auth_required : Bool}
      {w' : World fl}
      → discarded fl cfg r ≡ (ok (c, role, auth_required), w')
      → r ≡ (ok (role, auth_required), c)
  discarded-ok (ok (role, auth_required), s) e = cc (ap (λ x. x.0) e)
  discarded-ok (raise x, s) e = absurd (cc (ap (λ y. y.0) e))

  abbrev fresh : ℕ → Pool (Connection fl)
  fresh size = record { size = size; slots = replicate size none; is_closed = false }

  new_pool-cases :
      (size : ℕ)
      → ((new_pool {C = Connection fl} size ≡ ok (fresh size)) × (1 ≤ size))
        ⊎ (new_pool {C = Connection fl} size ≡ raise value_error)
  unfolding new_pool
  new_pool-cases size = ground arith

  started-OpenWith :
      (size : ℕ) (w w' : World fl) {c : Client fl} {role : Str} {auth_required : Bool}
      → started fl cfg w (ok (fresh size)) ≡ (ok (c, role, auth_required), w')
      → OpenWith size c
  unfolding started
  started-OpenWith size w w' {c} e =
      let first : Client fl = record { pool = fresh size; world = w } in
      let (x, u, filled, greeted) =
        bind-eq-ok (λ x. greet fl cfg) (prefill_client fl cfg) first (discarded-ok _ e) in
      let ready = prefill_client-OpenWith first u refl (length-replicate size none) filled in
      subst (λ r. OpenWith size r.1) greeted (greet-Fixed.at size u ready)

  new_client-OpenWith :
      (size : ℕ) (w w' : World fl) {c : Client fl} {role : Str} {auth_required : Bool}
      → new_client fl cfg size w ≡ (ok (c, role, auth_required), w')
      → OpenWith size c × (1 ≤ size)
  unfolding new_client started
  new_client-OpenWith size w w' {c} {role} {auth_required} e = elim (new_pool-cases size) [
    | inl (made, positive) ↦ (
      started-OpenWith size w w'
          (subst (λ r. started fl cfg w r ≡ (ok (c, role, auth_required), w')) made e),
      positive,
    )
    | inr refused ↦ absurd (
        cc (
          ap (λ x. x.0)
            (subst (λ r. started fl cfg w r ≡ (ok (c, role, auth_required), w')) refused e)))
  ]

context_of-one :
    (files : Files) (tls : Option TlsConfig) (ssl_context : Option SslContext)
    {context : Option SslContext}
    → context_of files tls ssl_context ≡ ok context
    → (tls ≡ none) ⊎ (ssl_context ≡ none)
unfolding context_of
context_of-one files none ssl_context e = inl refl
context_of-one files (some tls) none e = inr refl
context_of-one files (some tls) (some context) e = cc

module _ {fl : Floats} where
  pub construct-OpenWith :
      (files : Files) (tls : Option TlsConfig) (ssl_context : Option SslContext) (cfg : Settings fl)
      (size : ℕ) (w w' : World fl) {c : Client fl} {role : Str} {auth_required : Bool}
      → construct fl files tls ssl_context cfg size w ≡ (ok (c, role, auth_required), w')
      → ((tls ≡ none) ⊎ (ssl_context ≡ none)) × OpenWith size c × (1 ≤ size)
  unfolding construct
  construct-OpenWith files tls ssl_context cfg size w w' e =
      let (context, u, chosen, made) = bind-eq-ok _ (lift (context_of files tls ssl_context)) w e in
      let (ready, positive) =
        new_client-OpenWith (with_context fl (is_some context) cfg) size u w' made in
      (context_of-one files tls ssl_context (ap (λ r. r.0) chosen), ready, positive)

  -- A client that was constructed was not given both kinds of TLS settings, and its pool is open and
  -- has as many slots as it was asked for, which are one or more.
  abbrev pub Constructed :
      Option TlsConfig → Option SslContext → ℕ → Result (Client fl × Str × Bool) × World fl → Type 0
  Constructed tls ssl_context size (ok (c, role, auth_required), w) =
      ((tls ≡ none) ⊎ (ssl_context ≡ none)) × OpenWith size c × (1 ≤ size)
  Constructed tls ssl_context size (raise e, w) = Unit

  -- Whatever the network does while a client is constructed: if the construction returns, the client
  -- was not given both kinds of TLS settings, and its pool is open and has as many slots as it was
  -- asked for, which are one or more.
  pub construct-Constructed :
      (files : Files) (tls : Option TlsConfig) (ssl_context : Option SslContext) (cfg : Settings fl)
      (size : ℕ) (w : World fl)
      → Constructed tls ssl_context size (construct fl files tls ssl_context cfg size w)
  construct-Constructed files tls ssl_context cfg size w =
      elim (ends-cases (construct fl files tls ssl_context cfg size w)) [
        | inl ((c, role, auth_required), w', made) ↦
            subst (Constructed tls ssl_context size) (sym made)
              (construct-OpenWith files tls ssl_context cfg size w w' made)
        | inr (e, w', raises) ↦ subst (Constructed tls ssl_context size) (sym raises) tt
      ]
