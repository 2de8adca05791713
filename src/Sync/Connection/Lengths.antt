-- ===== src/Sync/Connection/Lengths.antt =====
-- The lengths of what the reading calls of fq/sync/connection.py return.
use fq_client_py.Prelude.{
  ℕ, zero, suc, ◌+◌, ◌-◌, ◌≤◌, ◌≡◌, refl, ap, ◌∙◌, subst, Bool, true, false, List, [], ◌∷◌, ◌++◌,
  Option, none, some, Bytes, ltb, length, length-append, take, arith,
}
use fq_client_py.Errors.{ok}
use fq_client_py.Exec.{Exec, pure, ◌>>=◌}
use fq_client_py.Exec.Inversion.{bind-eq-ok}
use fq_client_py.Floats.{Floats}
use fq_client_py.World.{Event, done, os_error, timed_out, received}
use fq_client_py.Sync.Connection.{
  Session, next, arrived, recv_of, recv, chunk_of, read_from, read_exactly,
}

length-take : {A : Type 0} (n : ℕ) (xs : List A) → length (take n xs) ≤ n
length-take zero xs = omega arith
length-take (suc n) [] = omega arith
length-take (suc n) (x ∷ xs) = omega (arith, length-take n xs)

module _ {fl : Floats} where
  open fl use {F}

  arrived-received :
      (size : ℕ) (e : Event) (s t : Session fl) {bytes : Bytes}
      → arrived fl size e s ≡ (ok (received bytes), t)
      → length bytes ≤ size
  arrived-received size (received b) s t h =
      subst (λ x. length x ≤ size) (cc (ap (λ r. r.0) h)) (length-take size b)
  arrived-received size done s t h = absurd (cc (ap (λ r. r.0) h))
  arrived-received size os_error s t h = absurd (cc (ap (λ r. r.0) h))
  arrived-received size timed_out s t h = absurd (cc (ap (λ r. r.0) h))

  recv_of-received :
      (size : ℕ) (sock : Option Bytes) (s t : Session fl) {bytes : Bytes}
      → recv_of fl size sock s ≡ (ok (received bytes), t)
      → length bytes ≤ size
  recv_of-received size none s t h = absurd (cc (ap (λ r. r.0) h))
  recv_of-received size (some []) s t h =
      let (e, u, k1, k2) = bind-eq-ok (arrived fl size) (next fl) s h in
      arrived-received size e u t k2
  recv_of-received size (some (b ∷ bytes)) s t h =
      arrived-received size (received (b ∷ bytes)) s t h

  recv-received :
      (size : ℕ) (s t : Session fl) {bytes : Bytes}
      → recv fl size s ≡ (ok (received bytes), t)
      → length bytes ≤ size
  unfolding recv
  recv-received size s t h = recv_of-received size s.conn.sock s t h

  chunk_of-ok :
      (e : Event) (s t : Session fl) {chunk : Bytes}
      → chunk_of fl e s ≡ (ok chunk, t)
      → (e ≡ received chunk) × (1 ≤ length chunk)
  unfolding chunk_of
  chunk_of-ok (received []) s t h = absurd (cc (ap (λ r. r.0) h))
  chunk_of-ok (received (b ∷ bytes)) s t {chunk} h =
      let same : (b ∷ bytes ≡ chunk) = cc (ap (λ r. r.0) h) in
      (ap received same, omega (arith, ap length same))
  chunk_of-ok done s t h = absurd (cc (ap (λ r. r.0) h))
  chunk_of-ok os_error s t h = absurd (cc (ap (λ r. r.0) h))
  chunk_of-ok timed_out s t h = absurd (cc (ap (λ r. r.0) h))

  module _ (fuel size : ℕ) (buffer : Bytes)
      (later : (chunk : Bytes) (s t : Session fl) (b : Bytes)
        → length (buffer ++ chunk) ≤ size
        → size ≤ length (buffer ++ chunk) + fuel
        → read_from fl fuel size (buffer ++ chunk) s ≡ (ok b, t)
        → length b ≡ size) where
    round-length :
        (more : Bool) (s t : Session fl) {b : Bytes}
        → ltb (length buffer) size ≡ more
        → length buffer ≤ size
        → size ≤ length buffer + suc fuel
        → (elim more as (λ x. Exec (Session fl) Bytes) [
          | false ↦ pure buffer
          | true ↦ do
            outcome ← recv fl (size - length buffer)
            chunk ← chunk_of fl outcome
            read_from fl fuel size (buffer ++ chunk)
        ])
            s
          ≡ (ok b, t)
        → length b ≡ size
    round-length false s t {b} h below enough k =
        let same : (buffer ≡ b) = cc (ap (λ r. r.0) k) in ground (arith, ap length same)
    round-length true s t h below enough k =
        let (e, u, k1, k2) = bind-eq-ok _ (recv fl (size - length buffer)) s k in
        let (chunk, v, k3, k4) = bind-eq-ok _ (chunk_of fl e) u k2 in
        let (same, filled) = chunk_of-ok e u v k3 in
        let fits =
          recv-received (size - length buffer) s u {bytes = chunk}
            (k1 ∙ ap (λ e. (ok e, u)) same) in
        later chunk v t _ (omega (arith, length-append buffer chunk, filled, fits))
          (omega (arith, length-append buffer chunk, filled, fits)) k4

  read_from-length :
      (fuel size : ℕ) (buffer : Bytes) (s t : Session fl) {b : Bytes}
      → length buffer ≤ size
      → size ≤ length buffer + fuel
      → read_from fl fuel size buffer s ≡ (ok b, t)
      → length b ≡ size
  unfolding read_from
  read_from-length zero size buffer s t {b} below enough k =
      let same : (buffer ≡ b) = cc (ap (λ r. r.0) k) in omega (arith, ap length same)
  read_from-length (suc fuel) size buffer s t below enough k =
      round-length fuel size buffer
        (λ chunk s t b. read_from-length fuel size (buffer ++ chunk) s t {b = b})
        (ltb (length buffer) size) s t refl below enough k

  -- What `_read_exactly` returns has exactly the length asked for: its fuel never cuts it short.
  pub length-read_exactly :
      (size : ℕ) (s t : Session fl) (b : Bytes)
      → read_exactly fl size s ≡ (ok b, t)
      → length b ≡ size
  unfolding read_exactly
  length-read_exactly size s t b k = read_from-length size size [] s t (omega arith) (omega arith) k
