-- ===== src/Sync/Connection/Flight/Ends.antt =====
-- `send` and `send_chunked` of fq/sync/connection.py, by how they end.
use fq_client_py.Prelude.{
  ℕ, ◌≤◌, length, ◌≡◌, ap, subst, sym, inl, inr, ◌⊎◌, Bool-cases, true, false, [], ◌∷◌, ◌++◌,
  Option, none, some, Bytes,
}
use fq_client_py.Errors.{Exn, Result, ok, raise}
use fq_client_py.Exec.{Exec}
use fq_client_py.Exec.Inversion.{ends-cases}
use fq_client_py.Framing.{encode_frame}
use fq_client_py.Commands.{Command}
use fq_client_py.Floats.{Floats}
use fq_client_py.Reconnect.{Deadline}
use fq_client_py.Sync.Connection.{Session, closed, send, send_chunked}
use fq_client_py.Sync.Connection.Fuel.{send_chunked-pending}
use fq_client_py.Sync.Connection.Flight.{Cut}
use fq_client_py.Sync.Connection.Flight.Exchange.{
  Exchanging, Given, send-Exchanging, send_chunked-Exchanging,
}

module _ {fl : Floats} where
  -- From one state to another that has sent exactly the frame of the payload, and cut off none.
  abbrev pub Sent : Bytes → Session fl → Session fl → Type 0
  Sent payload s t =
      (frame : Bytes) × (encode_frame payload ≡ ok frame)
      × (t.world.sent ≡ s.world.sent ++ frame ∷ [])
      × (t.world.cut ≡ s.world.cut)

  -- How an exchange from the state `s` raises: with its request in flight and no frame cut off; with
  -- nothing written; or with the frame of the payload cut off, and nothing written whole.
  abbrev pub Raised : Bytes → Session fl → Session fl → Type 0
  Raised payload s t =
      ((t.conn.request_in_flight ≡ true) × (t.world.cut ≡ s.world.cut))
      ⊎ (((t.world.sent ≡ s.world.sent) × (t.world.cut ≡ s.world.cut))
          ⊎ ((t.world.sent ≡ s.world.sent)
              × (frame : Bytes) × (encode_frame payload ≡ ok frame)
              × (t.world.cut ≡ s.world.cut ++ frame ∷ [])))

  -- An exchange has ended. With a response, its frame was sent and no request is in flight; in both
  -- cases the connection is closed only if it was.
  abbrev pub Ended : {A : Type 0} → Bytes → Session fl → Result A × Session fl → Type 0
  Ended payload s (ok a, t) =
      (t.conn.request_in_flight ≡ false) × Sent payload s t × (closed fl t.conn ≡ closed fl s.conn)
  Ended payload s (raise e, t) = Raised payload s t × (closed fl t.conn ≡ closed fl s.conn)

  -- The same for a loop of so many rounds, or it is still reading: its request was sent and is in
  -- flight, and each round has taken an event of the script.
  abbrev pub ChunkedEnded : ℕ → Bytes → Session fl → Result (Option Bytes) × Session fl → Type 0
  ChunkedEnded fuel payload s (ok none, t) =
      (t.conn.request_in_flight ≡ true)
      × Sent payload s t
      × (fuel ≤ length s.world.events)
      × (closed fl t.conn ≡ closed fl s.conn)
  ChunkedEnded fuel payload s (ok (some r), t) = Ended {A = Bytes} payload s (ok r, t)
  ChunkedEnded fuel payload s (raise e, t) = Ended {A = Bytes} payload s (raise e, t)

  module _ {A : Type 0} {Final : A → Type 0} {payload : Bytes} (m : Exec (Session fl) A)
      (h : Exchanging Final payload m) (s : Session fl) where
    kept-open : (r : Result A) (t : Session fl) → m s ≡ (r, t) → closed fl t.conn ≡ closed fl s.conn
    kept-open r t k = cc (ap (λ r. closed fl r.1.conn) k, h.open_state s)

    returned-Ended :
        (a : A) (t : Session fl) → m s ≡ (ok a, t) → Final a → Ended {A = A} payload s (ok a, t)
    returned-Ended a t k final =
        ((h.returns s t a k final).0, h.keeps s t a k, kept-open (ok a) t k)

    raised-Ended :
        (e : Exn) (t : Session fl) → m s ≡ (raise e, t) → Ended {A = A} payload s (raise e, t)
    raised-Ended e t k = (
      elim (subst (λ r. Cut payload s r.1) k (h.cuts s)) [
        | inl none_cut ↦ elim (Bool-cases t.conn.request_in_flight) [
          | inl flag ↦ inl (flag, none_cut)
          | inr flag ↦ inr (inl (h.raises s t e k flag, none_cut))
        ]
        | inr part ↦ inr (inr part)
      ],
      kept-open (raise e) t k,
    )

  -- However `send` ends, the connection is closed only if it was before. With a response, exactly the
  -- frame of the command was sent and no request is in flight. With an exception, a request is in
  -- flight; or nothing was written; or an OSError has cut off the frame, of which no more than a part is
  -- out, and nothing was sent whole.
  pub send-Ended :
      (command : Command) (d : Deadline fl) (s : Session fl)
      → Ended command.payload s (send fl command d s)
  send-Ended command d s =
      let h = send-Exchanging command d in
      elim (ends-cases (send fl command d s)) [
        | inl (a, t, e) ↦ subst (Ended command.payload s) (sym e) (returned-Ended _ h s a t e tt)
        | inr (x, t, e) ↦ subst (Ended command.payload s) (sym e) (raised-Ended _ h s x t e)
      ]

  chunked-Ended :
      (fuel : ℕ) (command : Command) (d : Deadline fl) (s t : Session fl) (r : Option Bytes)
      → send_chunked fl fuel command d s ≡ (ok r, t)
      → ChunkedEnded fuel command.payload s (ok r, t)
  chunked-Ended fuel command d s t none e =
      let h = send_chunked-Exchanging fuel command d in
      let (flag, rounds) = send_chunked-pending fuel command d s t e in
      (flag, h.keeps s t none e, rounds, kept-open _ h s (ok none) t e)
  chunked-Ended fuel command d s t (some r) e =
      let final : Given (some r) = λ k. cc k in
      returned-Ended _ (send_chunked-Exchanging fuel command d) s (some r) t e final

  -- After any number of rounds of the loop of `send_chunked`: it has returned a response, and exactly
  -- the frame of the command was sent and no request is in flight; or it has raised, and a request is
  -- in flight, or nothing was written, or an OSError has cut off the frame and nothing was sent whole;
  -- or it is still reading, and the frame was sent, the request is in flight, and there were at
  -- least as many events as rounds. The connection is closed only if it was before.
  pub send_chunked-ChunkedEnded :
      (fuel : ℕ) (command : Command) (d : Deadline fl) (s : Session fl)
      → ChunkedEnded fuel command.payload s (send_chunked fl fuel command d s)
  send_chunked-ChunkedEnded fuel command d s =
      elim (ends-cases (send_chunked fl fuel command d s)) [
        | inl (r, t, e) ↦
            subst (ChunkedEnded fuel command.payload s) (sym e)
              (chunked-Ended fuel command d s t r e)
        | inr (x, t, e) ↦
            subst (ChunkedEnded fuel command.payload s) (sym e)
              (raised-Ended _ (send_chunked-Exchanging fuel command d) s x t e)
      ]
