-- ===== src/Aio/Connection/Frames.antt =====
-- `_read_frame` of fq/aio/connection.py, by the bytes that it takes from the connection.
use fq_client_py.Prelude.{
  ℕ, suc, ◌≡◌, refl, ap, subst, sym, ◌∙◌, ◌⊎◌, inl, inr, Bool, Bool-cases, [], ◌++◌, Option, none,
  some, Bytes, ◌==◌, ==-eq, length, if◌then◌else◌,
}
use fq_client_py.Errors.{Exn, Result, ok, raise, fq_connection_error, fq_timeout_error}
use fq_client_py.Floats.{Floats}
use fq_client_py.World.{World}
use fq_client_py.Exec.{Exec, continue, pure, lift, ◌>>=◌}
use fq_client_py.Framing.{frame_header_size, decode_frame_size}
use fq_client_py.Reconnect.{Deadline, check, expired, remaining, clock}
use fq_client_py.Sync.Connection.{Session, conn_get, closed}
use fq_client_py.Aio.Connection.{
  buffer_of, start_timeout, require_streams, read_exactly, read_frame,
}
use fq_client_py.Aio.Connection.Kept.{delivered, to_read, Conserved, open_read-Conserved}

module _ {fl : Floats} where
  -- A frame that is read has ended, where `before` was to be read.
  abbrev pub Framed : Bytes → Result Bytes × Session fl → Type 0
  Framed before (ok payload, t) =
      (header : Bytes) × (length header ≡ frame_header_size)
      × ((limit : ℕ) × (decode_frame_size header limit ≡ ok (length payload)))
      × (header ++ (payload ++ to_read t) ≡ before)
  Framed before (raise e, t) =
      (to_read t ≡ before)
      ⊎ (((header : Bytes) × (length header ≡ frame_header_size) × (header ++ to_read t ≡ before))
          ⊎ (e ≡ fq_connection_error))

  -- The rest of `_read_frame` behind the header, by its size.
  abbrev of_size : Result ℕ → Exec (Session fl) Bytes
  of_size outcome = do size ← lift outcome; if size == 0 then pure [] else read_exactly fl size

  payload-Framed :
      (limit size : ℕ) (header before : Bytes) (r : Result Bytes × Session fl) (t : Session fl)
      → length header ≡ frame_header_size
      → decode_frame_size header limit ≡ ok size
      → header ++ to_read t ≡ before
      → Conserved size (to_read t) r
      → Framed before r
  payload-Framed limit size header before (ok payload, u) t n decoded all
        (count, rest, left, open_sock) =
      (header, n, (limit, decoded ∙ ap ok (sym count)), ap (λ xs. header ++ xs) rest ∙ all)
  payload-Framed limit size header before (raise e, u) t n decoded all (inl same) =
      inr (inl (header, n, ap (λ xs. header ++ xs) same ∙ all))
  payload-Framed limit size header before (raise e, u) t n decoded all (inr lost) = inr (inr lost)

  of_size-Framed :
      (limit : ℕ) (outcome : Result ℕ) (header before buffer : Bytes) (t : Session fl)
      → length header ≡ frame_header_size
      → decode_frame_size header limit ≡ outcome
      → header ++ to_read t ≡ before
      → t.conn.sock ≡ some buffer
      → Framed before (of_size outcome t)
  of_size-Framed limit (raise e) header before buffer t n decoded all open_sock =
      inr (inl (header, n, all))
  of_size-Framed limit (ok size) header before buffer t n decoded all open_sock =
      let rest = λ (b : Bool). (if b then pure [] else read_exactly fl size) t in
      elim (Bool-cases (size == 0)) [
        | inl empty ↦
            subst (λ b. Framed before (rest b)) (sym empty)
              (header, n, (limit, decoded ∙ ap ok (==-eq size 0 empty)), all)
        | inr some_bytes ↦
            subst (λ b. Framed before (rest b)) (sym some_bytes)
              (payload-Framed limit size header before (read_exactly fl size t) t n decoded all
                (open_read-Conserved size t buffer open_sock))
      ]

  -- `start_timeout` reads the clock, and neither the buffer nor the script.
  started :
      (at : Option fl.F) (s : Session fl)
      → (w : World fl) × (w.events ≡ s.world.events)
        × ((start_timeout fl (record { deadline = at }) s ≡ (ok tt, record s { world = w }))
            ⊎ ((e : Exn) × (start_timeout fl (record { deadline = at }) s
                  ≡ (raise e, record s { world = w }))))
  unfolding start_timeout check expired remaining clock
  started none s = (s.world, refl, inl refl)
  started (some at) s =
      let w = s.world in
      elim (Bool-cases (fl.less_eq (fl.sub at (w.time w.reads)) fl.zero_float)) [
        | inl over ↦ (record w { reads = suc w.reads }, refl, inr (fq_timeout_error, rw over refl))
        | inr left ↦ (record w { reads = suc (suc w.reads) }, refl, inl (rw left refl))
      ]

  -- `_read_frame` behind the start of its timeout.
  abbrev header_and_payload : Exec (Session fl) Bytes
  header_and_payload = do
    header ← read_exactly fl frame_header_size
    max_size ← conn_get fl (λ c. c.max_message_size)
    size ← lift (decode_frame_size header max_size)
    if size == 0 then pure [] else read_exactly fl size

  header-Framed :
      (before : Bytes) (r : Result Bytes × Session fl)
      → Conserved frame_header_size before r
      → Framed before (
          continue
            (λ header. conn_get fl (λ c. c.max_message_size) >>= λ max_size.
              of_size (decode_frame_size header max_size))
            r)
  header-Framed before (ok header, t) (n, all, buffer, open_sock) =
      of_size-Framed t.conn.max_message_size (decode_frame_size header t.conn.max_message_size)
        header before buffer t n refl all open_sock
  header-Framed before (raise e, t) (inl same) = inl same
  header-Framed before (raise e, t) (inr lost) = inr (inr lost)

  header_and_payload-Framed :
      (s : Session fl) (buffer : Bytes)
      → s.conn.sock ≡ some buffer
      → Framed (to_read s) (header_and_payload s)
  header_and_payload-Framed s buffer open_sock =
      header-Framed (to_read s) (read_exactly fl frame_header_size s)
        (open_read-Conserved frame_header_size s buffer open_sock)

  to_read-events :
      (s : Session fl) (w : World fl)
      → w.events ≡ s.world.events
      → to_read (record s { world = w }) ≡ to_read s
  to_read-events s w same = ap (λ es. buffer_of fl s.conn.sock ++ delivered es) same

  read_frame_opened :
      (d : Deadline fl) (s : Session fl) (buffer : Bytes)
      → s.conn.sock ≡ some buffer
      → read_frame fl d s ≡ continue (λ u. header_and_payload) (start_timeout fl d s)
  unfolding read_frame require_streams closed
  read_frame_opened d s buffer open_sock =
      let at : Option Bytes → Session fl =
        (λ sock. record s { conn = record s.conn { sock = sock } }) in
      subst
        (λ sock.
          read_frame fl d (at sock)
          ≡ continue (λ u. header_and_payload) (start_timeout fl d (at sock)))
        (sym open_sock) refl

  -- `_read_frame` of an open connection, however its bytes are cut into chunks and however the waits
  -- for them end. If it returns, it has taken exactly a header, which gives the length of the payload,
  -- and the payload, from the front of what was to be read. If it raises, every byte stays to be read;
  -- or exactly a header is lost, as with a timeout before the payload is there, so that the payload is
  -- read for a header next; or the exception is FQConnectionError.
  pub read_frame-Framed :
      (d : Deadline fl) (s : Session fl) (buffer : Bytes)
      → s.conn.sock ≡ some buffer
      → Framed (to_read s) (read_frame fl d s)
  read_frame-Framed d s buffer open_sock =
      let behind : Result (Unit {0}) × Session fl → Result Bytes × Session fl =
        (λ r. continue (λ u. header_and_payload) r) in
      let (w, events, outcome) = started d.deadline s in
      let t : Session fl = record s { world = w } in
      subst (Framed (to_read s)) (sym (read_frame_opened d s buffer open_sock)) (elim outcome [
        | inl starts ↦
            subst (λ r. Framed (to_read s) (behind r)) (sym starts)
              (subst (λ all. Framed all (header_and_payload t)) (to_read-events s w events)
                (header_and_payload-Framed t buffer open_sock))
        | inr (e, raises) ↦
            subst (λ r. Framed (to_read s) (behind r)) (sym raises)
              (inl (to_read-events s w events))
      ])
