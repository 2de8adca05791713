-- ===== src/Sync/Sharded/Construct/Ends.antt =====
-- How the construction of a sharded client of fq/sync/sharded.py ends.
use fq_client_py.Prelude.{
  ℕ, ◌≡◌, refl, subst, sym, inl, inr, true, Bool, Str, List, [], ◌∷◌, ◌++◌, append_assoc,
  append-nil, Option, ◌||◌,
}
use fq_client_py.Errors.{Exn, ok, raise}
use fq_client_py.Exec.Inversion.{ends-cases}
use fq_client_py.Floats.{Floats}
use fq_client_py.World.{World}
use fq_client_py.Types.Tls.{TlsConfig, SslContext, Files}
use fq_client_py.Sync.Pool
use fq_client_py.Sync.Pool.{Pool}
use fq_client_py.Sync.Client.{Client, Settings}
use fq_client_py.Sync.Client.Slots.{OpenWith}
use fq_client_py.Sync.Client.Construct.{construct, with_context, is_some}
use fq_client_py.Sync.Client.Construct.Prefilled.{construct-OpenWith}
use fq_client_py.Sync.Sharded.Methods.{Shard}
use fq_client_py.Sync.Sharded.Construct.{Opened, close_client, close, open_shards, new_sharded}

module _ {fl : Floats} where
  -- Its pool refuses every call, and keeps no connection.
  abbrev pub IsClosed : Client fl → Type 0
  IsClosed c = (c.pool.is_closed ≡ true) × (c.pool.slots ≡ [])

  close_client-IsClosed : (n : ℕ) (c : Client fl) → OpenWith n c → IsClosed (close_client fl c)
  unfolding close_client Pool.close
  close_client-IsClosed n c (open_pool, count) = rw open_pool (refl, refl)

  module _ (files : Files) (tls : Option TlsConfig) (ssl_context : Option SslContext)
      (size : ℕ) where
    -- The construction of a client at the address returns this client.
    abbrev pub Makes : Settings fl × World fl → Client fl → Type 0
    Makes (cfg, w) c =
        (role : Str) × (auth_required : Bool) × (w' : World fl) × (construct fl files tls
            ssl_context cfg size w
          ≡ (ok (c, role, auth_required), w'))

    abbrev pub Fails : Settings fl × World fl → Exn → Type 0
    Fails (cfg, w) e =
        (w' : World fl) × (construct fl files tls ssl_context cfg size w ≡ (raise e, w'))

    -- A shard for each address, made there and open.
    abbrev pub AllMade : List (Settings fl × World fl) → List (Shard fl) → Type 0
    AllMade [] [] = Unit
    AllMade [] (s ∷ shards) = ⊥
    AllMade (address ∷ addresses) [] = ⊥
    AllMade (address ∷ addresses) (s ∷ shards) =
        (Makes address s.client × OpenWith size s.client) × AllMade addresses shards

    -- A shard for each address, made there and closed since.
    abbrev pub AllShut : List (Settings fl × World fl) → List (Shard fl) → Type 0
    AllShut [] [] = Unit
    AllShut [] (s ∷ shards) = ⊥
    AllShut (address ∷ addresses) [] = ⊥
    AllShut (address ∷ addresses) (s ∷ shards) =
        ((c : Client fl) × Makes address c × (s.client ≡ close_client fl c) × IsClosed s.client)
        × AllShut addresses shards

    -- With an open shard for each address; or with the exception of the first address at which no
    -- client could be made, and every client that was made in front of it closed again.
    abbrev pub Settled : List (Settings fl × World fl) → Opened fl → Type 0
    Settled addresses (ok shards, shut) = AllMade addresses shards × (shut ≡ [])
    Settled addresses (raise e, shut) =
        (front : List (Settings fl × World fl)) × (failed : Settings fl × World fl) × (rest : List
          (Settings fl × World fl))
        × (addresses ≡ front ++ failed ∷ rest)
        × Fails failed e
        × AllShut front shut

    AllMade-snoc :
        (addresses : List (Settings fl × World fl)) (shards : List (Shard fl))
        (address : Settings fl × World fl) (s : Shard fl)
        → AllMade addresses shards
        → Makes address s.client
        → OpenWith size s.client
        → AllMade (addresses ++ address ∷ []) (shards ++ s ∷ [])
    AllMade-snoc [] [] address s h made ready = ((made, ready), tt)
    AllMade-snoc [] (x ∷ shards) address s h made ready = absurd h
    AllMade-snoc (a ∷ addresses) [] address s h made ready = absurd h
    AllMade-snoc (a ∷ addresses) (x ∷ shards) address s (here, h) made ready =
        (here, AllMade-snoc addresses shards address s h made ready)

    close-AllShut :
        (addresses : List (Settings fl × World fl)) (shards : List (Shard fl))
        → AllMade addresses shards
        → AllShut addresses (close fl shards)
    unfolding close
    close-AllShut [] [] h = tt
    close-AllShut [] (s ∷ shards) h = absurd h
    close-AllShut (address ∷ addresses) [] h = absurd h
    close-AllShut (address ∷ addresses) (s ∷ shards) ((made, ready), h) = (
      (s.client, made, refl, close_client-IsClosed size s.client ready),
      close-AllShut addresses shards h,
    )

    open_shards-Settled :
        (before addresses : List (Settings fl × World fl)) (shards : List (Shard fl))
        → AllMade before shards
        → Settled (before ++ addresses) (open_shards fl files tls ssl_context size addresses shards)
    unfolding open_shards
    open_shards-Settled before [] shards h =
        (subst (λ done. AllMade done shards) (sym (append-nil before)) h, refl)
    open_shards-Settled before ((cfg, w) ∷ addresses) shards h =
        elim (ends-cases (construct fl files tls ssl_context cfg size w)) [
          | inr (e, w', raises) ↦
              rw raises
                (before, (cfg, w), addresses, refl, (w', raises), close-AllShut before shards h)
          | inl ((c, role, auth_required), w', made) ↦
              let s : Shard fl = (record {
                settings = with_context fl (is_some tls || is_some ssl_context) cfg;
                client = c;
              }) in
              let ready = construct-OpenWith files tls ssl_context cfg size w w' made in
              let rest =
                open_shards-Settled (before ++ (cfg, w) ∷ []) addresses (shards ++ s ∷ []) (
                  AllMade-snoc before shards (cfg, w) s h (role, auth_required, w', made)
                    ready.1) in
              rw made (
                subst
                  (λ all.
                    Settled all
                      (open_shards fl files tls ssl_context size addresses (shards ++ s ∷ [])))
                  (append_assoc before ((cfg, w) ∷ []) addresses) rest)
        ]

    -- The construction of a sharded client over one address or more returns an open client for each
    -- address, in order, each with the slots that were asked for. Or it raises the exception of the
    -- first address at which no client could be constructed; then it has closed exactly the clients of
    -- the addresses in front of it, each as it was constructed, and they keep no connection.
    pub new_sharded-Settled :
        (address : Settings fl × World fl) (addresses : List (Settings fl × World fl))
        → Settled
            (address ∷ addresses)
            (new_sharded fl files tls ssl_context size (address ∷ addresses))
    unfolding new_sharded
    new_sharded-Settled address addresses = open_shards-Settled [] (address ∷ addresses) [] tt
