-- ===== src/Sync/Connection/Fuel.antt =====
-- The rounds of the loop of `send_chunked` in fq/sync/connection.py, counted by the events left.
use fq_client_py.Prelude.{
  ℕ, zero, suc, ◌+◌, ◌<◌, ◌≤◌, ◌≡◌, sym, refl, ap, Bool, true, false, List, [], ◌∷◌, Option, none,
  some, Bytes, length, arith, if◌then◌else◌,
}
use fq_client_py.Errors.{ok, value_error}
use fq_client_py.Exec.{Exec, pure, throw, lift, continue, ◌>>=◌, ◌>>◌}
use fq_client_py.Exec.Inversion.{bind-eq-ok}
use fq_client_py.Chunked.{ChunkAssembler, new_assembler, feed}
use fq_client_py.Commands.{Command}
use fq_client_py.Floats.{Floats}
use fq_client_py.World.{Event, done, os_error, timed_out, received}
use fq_client_py.Reconnect.{Deadline, check, remaining}
use fq_client_py.Sync.Connection.{
  Session, on_world, require_socket, next_of, next, expect_done, set_timeout, apply_timeout,
  read_frame, read_chunks, set_in_flight, write_request, send_chunked,
}
use fq_client_py.Sync.Connection.Flight.{write_request-Writing}
use fq_client_py.Sync.Connection.Quiet.{Quiet-end}
use fq_client_py.Sync.Connection.Quiet.Calls.{
  check-Quiet, remaining-Quiet, require_socket-Quiet, after_timeout-Quiet, read_frame-Quiet,
}

module _ {fl : Floats} where
  open fl use {F}

  expect-fewer :
      (es : List Event) (s t : Session fl)
      → s.world.events ≡ es
      → continue (expect_done fl) (next_of fl es s) ≡ (ok tt, t)
      → length t.world.events < length s.world.events
  expect-fewer [] s t h k = absurd (cc (ap (λ r. r.0) k))
  expect-fewer (done ∷ es) s t h k =
      let same : (es ≡ t.world.events) = ap (λ r. r.1.world.events) k in
      omega (arith, ap length h, ap length same)
  expect-fewer (os_error ∷ es) s t h k = absurd (cc (ap (λ r. r.0) k))
  expect-fewer (timed_out ∷ es) s t h k = absurd (cc (ap (λ r. r.0) k))
  expect-fewer (received bytes ∷ es) s t h k = absurd (cc (ap (λ r. r.0) k))

  refused-fewer :
      (b : Bool) (s t : Session fl)
      → (if b then throw value_error else (next fl >>= expect_done fl)) s ≡ (ok tt, t)
      → length t.world.events < length s.world.events
  unfolding next
  refused-fewer true s t k = absurd (cc (ap (λ r. r.0) k))
  refused-fewer false s t k = expect-fewer s.world.events s t refl k

  set_timeout-fewer :
      (left : Option F) (s t : Session fl)
      → set_timeout fl left s ≡ (ok tt, t)
      → length t.world.events < length s.world.events
  unfolding set_timeout next
  set_timeout-fewer none s t k = expect-fewer s.world.events s t refl k
  set_timeout-fewer (some left) s t k = refused-fewer (fl.less left fl.zero_float) s t k

  apply_timeout-fewer :
      (d : Deadline fl) (s t : Session fl)
      → apply_timeout fl d s ≡ (ok tt, t)
      → length t.world.events < length s.world.events
  unfolding apply_timeout
  apply_timeout-fewer d s t k =
      let (x, u, k1, k2) = bind-eq-ok _ (on_world fl (check fl d)) s k in
      let (left, v, k3, k4) = bind-eq-ok _ (on_world fl (remaining fl d)) u k2 in
      omega (
        arith,
        (Quiet-end _ (check-Quiet fl d) s u k1).fewer,
        (Quiet-end _ (remaining-Quiet fl d) u v k3).fewer,
        set_timeout-fewer left v t k4,
      )

  read_frame-fewer :
      (d : Deadline fl) (s t : Session fl) {frame : Bytes}
      → read_frame fl d s ≡ (ok frame, t)
      → length t.world.events < length s.world.events
  unfolding read_frame
  read_frame-fewer d s t k =
      let (x, u, k1, k2) = bind-eq-ok _ (require_socket fl) s k in
      let (y, v, k3, k4) = bind-eq-ok _ (apply_timeout fl d) u k2 in
      omega (
        arith,
        (Quiet-end _ (require_socket-Quiet fl) s u k1).fewer,
        apply_timeout-fewer d u v k3,
        (Quiet-end _ (after_timeout-Quiet fl) v t k4).fewer,
      )

  -- A loop that is still reading: the flag is as it was, and each round has taken an event.
  abbrev Pending : ℕ → Session fl → Session fl → Type 0
  Pending fuel s t =
      (t.conn.request_in_flight ≡ s.conn.request_in_flight)
      × (fuel + length t.world.events ≤ length s.world.events)

  response-Pending :
      (fed : Option Bytes) (rest : Exec (Session fl) (Option Bytes)) (n : ℕ) (s t : Session fl)
      → (rest s ≡ (ok none, t) → Pending n s t)
      → (elim fed as (λ x. Exec (Session fl) (Option Bytes)) [
        | none ↦ rest
        | some response ↦ do set_in_flight fl false; pure (some response)
      ])
          s
        ≡ (ok none, t)
      → Pending n s t
  response-Pending none rest n s t h k = h k
  response-Pending (some response) rest n s t h k = absurd (cc (ap (λ p. p.0) k))

  read_chunks-Pending :
      (fuel : ℕ) (assembler : ChunkAssembler) (d : Deadline fl) (s t : Session fl)
      → read_chunks fl fuel assembler d s ≡ (ok none, t)
      → Pending fuel s t
  unfolding read_chunks
  read_chunks-Pending zero assembler d s t k =
      let same : s ≡ t = ap (λ p. p.1) k in
      (
        ap (λ u. u.conn.request_in_flight) (sym same),
        omega (arith, ap (λ u. length u.world.events) same),
      )
  read_chunks-Pending (suc fuel) assembler d s t k =
      let (frame, u, k1, k2) = bind-eq-ok _ (read_frame fl d) s k in
      let (fed, v, k3, k4) = bind-eq-ok _ (lift (feed frame assembler).0) u k2 in
      let same : u ≡ v = ap (λ p. p.1) k3 in
      let (flag, left) =
        response-Pending fed _ fuel v t (read_chunks-Pending fuel (feed frame assembler).1 d v t)
          k4 in
      (
        cc (
          flag,
          ap (λ w. w.conn.request_in_flight) same,
          (Quiet-end _ (read_frame-Quiet fl d) s u k1).flag,
        ),
        omega (arith, left, read_frame-fewer d s u k1, ap (λ w. length w.world.events) same),
      )

  -- `send_chunked` that is still reading after so many rounds: the request is in flight, and there were
  -- as many events or more. So with more rounds than events it ends.
  pub send_chunked-pending :
      (fuel : ℕ) (command : Command) (d : Deadline fl) (s t : Session fl)
      → send_chunked fl fuel command d s ≡ (ok none, t)
      → (t.conn.request_in_flight ≡ true) × (fuel ≤ length s.world.events)
  unfolding send_chunked
  send_chunked-pending fuel command d s t k =
      let (x, u, k1, k2) = bind-eq-ok _ (write_request fl command d) s k in
      let (flag, left) = read_chunks-Pending fuel new_assembler d u t k2 in
      let wrote = (write_request-Writing command d).returns s u k1 in
      (cc (flag, wrote.flag), omega (arith, left, wrote.fewer))
