-- ===== src/Sync/Connection/Delivery/Frames.antt =====
-- The frames in the stream that fq/sync/connection.py reads.
use fq_client_py.Prelude.{
  ℕ, suc, ◌^◌, ◌≤◌, ◌<◌, ◌≡◌, refl, ap, sym, subst, ◌∙◌, false, List, [], ◌∷◌, ◌++◌, append_assoc,
  Bytes, length, arith, ltb, ◌==◌, if◌then◌else◌,
}
use fq_client_py.Errors.{Result, ok, raise, corrupted_response_error}
use fq_client_py.Exec.{Exec, pure, lift, ◌>>=◌, ◌>>◌}
use fq_client_py.Framing.{encode_frame, decode_frame_size}
use fq_client_py.Framing.RoundTrip.{decode_frame_size-encode_frame}
use fq_client_py.Floats.{Floats}
use fq_client_py.World.{Event}
use fq_client_py.Reconnect.{Deadline}
use fq_client_py.Sync.Connection.{
  Session, closed, conn_get, require_socket, apply_timeout, read_exactly, read_frame,
}
use fq_client_py.Sync.Connection.Quiet.{Quiet-end}
use fq_client_py.Sync.Connection.Quiet.Calls.{apply_timeout-Quiet}
use fq_client_py.Sync.Connection.Delivery.{Holds, Reads, read_exactly-Reads}

module _ {fl : Floats} where
  body-Reads :
      (payload after : Bytes) (more : List Event) (s : Session fl)
      → Holds (payload ++ after) more s
      → Reads
          (if length payload == 0 then pure [] else read_exactly fl (length payload))
          payload
          after
          more
          s
  body-Reads [] after more s h = (s, refl, h, refl)
  body-Reads (b ∷ payload) after more s h =
      let nonzero : (suc (length payload) == 0 ≡ false) = ground arith in
      subst
        (λ c.
          Reads (if c then pure [] else read_exactly fl (length (b ∷ payload))) (b ∷ payload) after
            more s)
        (sym nonzero) (read_exactly-Reads (b ∷ payload) after more s h)

  -- A block in the form of `read_frame`, of which each call returns.
  frame_steps :
      (opened timed : Exec (Session fl) (Unit {0})) (header : Exec (Session fl) Bytes)
      (decoded : Bytes → ℕ → Result ℕ) (body : ℕ → Exec (Session fl) Bytes) (s u v : Session fl)
      {bytes : Bytes} {size : ℕ}
      → opened s ≡ (ok tt, s)
      → timed s ≡ (ok tt, u)
      → header u ≡ (ok bytes, v)
      → decoded bytes v.conn.max_message_size ≡ ok size
      → (do
        opened
        timed
        h ← header
        max_size ← conn_get fl (λ c. c.max_message_size)
        n ← lift (decoded h max_size)
        body n)
          s
        ≡ body size v
  frame_steps opened timed header decoded body s u v e1 e2 e3 e4 = rw (e1, e2, e3, e4)

  require_socket-open :
      (s : Session fl) → closed fl s.conn ≡ false → require_socket fl s ≡ (ok tt, s)
  unfolding require_socket
  require_socket-open s h = rw h

  Holds-open :
      (stream : Bytes) (more : List Event) (s : Session fl)
      → Holds stream more s
      → closed fl s.conn ≡ false
  unfolding closed
  Holds-open stream more s h = rw h.sock

  -- If the deadline allows it, and the bytes that the socket gives begin with the frame of a payload
  -- within the size limit, then however they are cut into chunks `_read_frame` returns the payload,
  -- and the socket gives exactly the bytes behind the frame next.
  pub read_frame-Reads :
      (payload frame after : Bytes) (more : List Event) (d : Deadline fl) (s u : Session fl)
      → length payload < 2 ^ 32
      → length payload ≤ u.conn.max_message_size
      → encode_frame payload ≡ ok frame
      → apply_timeout fl d s ≡ (ok tt, u)
      → Holds (frame ++ after) more u
      → (t : Session fl) × (read_frame fl d s ≡ (ok payload, t)) × Holds after more t
  unfolding read_frame
  read_frame-Reads payload frame after more d s u small fits encoded timed h =
      let (header, encoded', bytes, four, decoded) =
        decode_frame_size-encode_frame payload u.conn.max_message_size small in
      let same : (frame ≡ header ++ payload) = cc (encoded, encoded') in
      let stream =
        subst (λ x. Holds x more u) (ap (λ f. f ++ after) same ∙ append_assoc header payload after)
          h in
      let (v, got, h', limit) = read_exactly-Reads header (payload ++ after) more u stream in
      let (t, got', h'', limit') = body-Reads payload after more v h' in
      let is_open : (closed fl s.conn ≡ false) =
        cc ((Quiet-end _ (apply_timeout-Quiet fl d) s u timed).open_state, Holds-open _ more u h) in
      let within : ((if ltb u.conn.max_message_size (length payload)
            then raise corrupted_response_error
            else ok (length payload))
          ≡ ok (length payload)) =
        ground arith in
      let got4 = subst (λ n. read_exactly fl n u ≡ (ok header, v)) four got in
      let accepted : (decode_frame_size header v.conn.max_message_size ≡ ok (length payload)) =
        ap (decode_frame_size header) limit ∙ decoded ∙ within in
      (
        t,
        frame_steps (require_socket fl) (apply_timeout fl d) (read_exactly fl 4) decode_frame_size
              (λ n. if n == 0 then pure [] else read_exactly fl n) s u v
              (require_socket-open s is_open) timed got4 accepted
            ∙ got',
        h'',
      )
