-- ===== src/Sync/Connection/Delivery.antt =====
-- The stream of the bytes that a socket of fq/sync/connection.py receives, and how it is cut.
pub mod Frames
use fq_client_py.Prelude.{
  ℕ, zero, suc, ◌+◌, ◌-◌, ◌≤◌, ◌<◌, ◌≡◌, refl, ap, ap₂, sym, ◌∙◌, true, false, Bool, List, [], ◌∷◌,
  ◌++◌, append_assoc, append-nil, Option, some, none, Bytes, All, map, ltb, lt→ltb, length,
  length-append, take, drop, arith,
}
use fq_client_py.Errors.{Result, ok, raise}
use fq_client_py.Exec.{Exec, pure, continue, ◌>>=◌}
use fq_client_py.Floats.{Floats}
use fq_client_py.World.{Event, received}
use fq_client_py.Sync.Connection.{
  Session, next_of, arrived, recv_of, recv, chunk_of, read_from, read_exactly, next,
}

abbrev pub concat : List Bytes → Bytes
concat [] = []
concat (c ∷ cs) = c ++ concat cs

abbrev pub Nonempty : Bytes → Type 0
Nonempty c = 1 ≤ length c

-- A cut of a stream at the end of what has arrived and at the length that is read.
take-drop_stream :
    (have rest want after : Bytes)
    → have ++ rest ≡ want ++ after
    → (take (length want) have ++ drop (length have) want ≡ want)
      × (drop (length want) have ++ rest ≡ drop (length have) want ++ after)
take-drop_stream [] rest [] after h = (refl, h)
take-drop_stream [] rest (y ∷ want) after h = (refl, h)
take-drop_stream (x ∷ have) rest [] after h = (refl, h)
take-drop_stream (x ∷ have) rest (y ∷ want) after h =
    let (first, second) = take-drop_stream have rest want after (cc h) in
    (ap₂ (λ c s. c ∷ s) (cc h) first, second)

length-take_one : (n : ℕ) (c : Bytes) → 1 ≤ n → 1 ≤ length c → 1 ≤ length (take n c)
length-take_one zero c h k = absurd (omega arith)
length-take_one (suc n) [] h k = k
length-take_one (suc n) (x ∷ c) h k = omega arith

module _ {fl : Floats} where
  -- The socket will give the bytes of `stream`, before the rest of the script is `more`.
  pub record Holds (stream : Bytes) (more : List Event) (s : Session fl) : Type 0 where
    pub unread : Bytes
    pub chunks : List Bytes
    pub nonempty : All Nonempty chunks
    pub sock : s.conn.sock ≡ some unread
    pub events : s.world.events ≡ map received chunks ++ more
    pub content : unread ++ concat chunks ≡ stream

  -- What one call of `recv` does to such a socket.
  abbrev Gives : (want after : Bytes) → List Event → Session fl → Type 0
  Gives want after more s =
      (chunk left : Bytes) × (t : Session fl) × (recv fl (length want) s ≡ (ok (received chunk), t))
      × (1 ≤ length chunk)
      × (chunk ++ left ≡ want)
      × Holds (left ++ after) more t
      × (t.conn.max_message_size ≡ s.conn.max_message_size)

  recv-Gives_of :
      (want after : Bytes) (more : List Event) (s : Session fl) (unread : Bytes)
      (chunks : List Bytes)
      → 1 ≤ length want
      → All Nonempty chunks
      → s.conn.sock ≡ some unread
      → s.world.events ≡ map received chunks ++ more
      → unread ++ concat chunks ≡ want ++ after
      → Gives want after more s
  unfolding recv next
  recv-Gives_of want after more s [] [] one full sock events content =
      absurd (omega (arith, ap length content, length-append want after))
  recv-Gives_of want after more s (b ∷ bytes) chunks one full sock events content =
      let (first, second) = take-drop_stream (b ∷ bytes) (concat chunks) want after content in
      (
        take (length want) (b ∷ bytes),
        drop (length (b ∷ bytes)) want,
        _,
        ap (λ o. recv_of fl (length want) o s) sock,
        length-take_one (length want) (b ∷ bytes) one (omega arith),
        first,
        record {
          unread = drop (length want) (b ∷ bytes);
          chunks = chunks;
          nonempty = full;
          sock = refl;
          events = events;
          content = second;
        },
        refl,
      )
  recv-Gives_of want after more s [] (c ∷ chunks) one (filled, full) sock events content =
      let (first, second) = take-drop_stream c (concat chunks) want after content in
      (
        take (length want) c,
        drop (length c) want,
        _,
        ap (λ o. recv_of fl (length want) o s) sock
            ∙ ap (λ es. continue (arrived fl (length want)) (next_of fl es s)) events,
        length-take_one (length want) c one filled,
        first,
        record {
          unread = drop (length want) c;
          chunks = chunks;
          nonempty = full;
          sock = refl;
          events = refl;
          content = second;
        },
        refl,
      )

  recv-Gives :
      (want after : Bytes) (more : List Event) (s : Session fl)
      → 1 ≤ length want
      → Holds (want ++ after) more s
      → Gives want after more s
  recv-Gives want after more s one h =
      recv-Gives_of want after more s h.unread h.chunks one h.nonempty h.sock h.events h.content

  abbrev pub Reads :
      Exec (Session fl) Bytes → (got after : Bytes) → List Event → Session fl → Type 0
  Reads m got after more s =
      (t : Session fl) × (m s ≡ (ok got, t))
      × Holds after more t
      × (t.conn.max_message_size ≡ s.conn.max_message_size)

  chunk_of-received :
      (chunk : Bytes) (s : Session fl)
      → 1 ≤ length chunk
      → chunk_of fl (received chunk) s ≡ (ok chunk, s)
  unfolding chunk_of
  chunk_of-received [] s h = absurd (omega arith)
  chunk_of-received (b ∷ bytes) s h = refl

  read_from-Reads :
      (fuel size : ℕ) (buffer want after : Bytes) (more : List Event) (s : Session fl)
      → length buffer + length want ≡ size
      → length want ≤ fuel
      → Holds (want ++ after) more s
      → Reads (read_from fl fuel size buffer) (buffer ++ want) after more s
  unfolding read_from
  read_from-Reads zero size buffer [] after more s e f h = (s, rw (append-nil buffer), h, refl)
  read_from-Reads zero size buffer (w ∷ want) after more s e f h = absurd (omega arith)
  read_from-Reads (suc fuel) size buffer [] after more s e f h =
      let stop : (ltb (length buffer) size ≡ false) = ground arith in
      (s, rw (read_from, stop, append-nil buffer), h, refl)
  read_from-Reads (suc fuel) size buffer (w ∷ want) after more s e f h =
      let (chunk, left, u, got, filled, parts, holds, limit) =
        recv-Gives (w ∷ want) after more s (omega arith) h in
      let (t, rest, holds', limit') =
        read_from-Reads fuel size (buffer ++ chunk) left after more u
          (omega (arith, e, length-append buffer chunk, length-append chunk left, ap length parts))
          (omega (arith, f, filled, length-append chunk left, ap length parts)) holds in
      let again : (ltb (length buffer) size ≡ true) = ground arith in
      let missing : (size - length buffer ≡ length (w ∷ want)) = omega arith in
      let whole = append_assoc buffer chunk left ∙ ap (λ b. buffer ++ b) parts in
      (
        t,
        rw (read_from, again, missing, got, chunk_of-received chunk u filled)
            (rest ∙ ap (λ b. (ok b, t)) whole),
        holds',
        limit' ∙ limit,
      )

  pub read_exactly-Reads :
      (want after : Bytes) (more : List Event) (s : Session fl)
      → Holds (want ++ after) more s
      → Reads (read_exactly fl (length want)) want after more s
  unfolding read_exactly
  read_exactly-Reads want after more s h =
      read_from-Reads (length want) (length want) [] want after more s (omega arith) (omega arith) h
