-- ===== src/Chunked/Assembly.antt =====
-- What the assembler of fq/_chunked.py makes of a sequence of frames.
use mathlib.Core.List.{flatten}
use fq_client_py.Prelude.{
  ℕ, ◌≤◌, ◌≡◌, sym, ap, append-nil, List, [], ◌∷◌, ◌++◌, append_assoc, Option, none, some, Bytes,
  map, arith, str_eq,
}
use fq_client_py.Errors.{Result, ok, raise, protocol_error}
use fq_client_py.Python.Utf8.{decode}
use fq_client_py.Responses.{tag_ok, tag_err, tag_nxt}
use fq_client_py.Responses.Render.{response, error_reply}
use fq_client_py.Responses.RoundTrip.{split_response-response}
use fq_client_py.Responses.RoundTrip.Failures.{parse_error-reply}
use fq_client_py.Chunked.{ChunkAssembler, new_assembler, feed}

feed-nxt :
    (chunk : Bytes) (a : ChunkAssembler)
    → feed (response tag_nxt chunk) a ≡ (ok none, record { body = a.body ++ chunk })
unfolding feed str_eq
feed-nxt chunk a = rw (split_response-response tag_nxt chunk (omega arith))

feed-ok :
    (chunk : Bytes) (a : ChunkAssembler)
    → feed (response tag_ok chunk) a
      ≡ (ok (some (response tag_ok (a.body ++ chunk))), new_assembler)
unfolding feed str_eq
feed-ok chunk a = rw (split_response-response tag_ok chunk (omega arith))

feed-err :
    (code : ℕ) (message : Bytes) (a : ChunkAssembler)
    → code ≤ 9999
    → feed (error_reply code message) a
      ≡ (raise (protocol_error code (decode message)), new_assembler)
unfolding feed str_eq
feed-err code message a h =
    rw (split_response-response tag_err _ (omega arith), parse_error-reply code message h)

-- A caller that feeds frames until one ends the response or raises. `none`: the frames ran out.
abbrev go_on :
    (ChunkAssembler → Result (Option Bytes) × ChunkAssembler)
    → Result (Option Bytes) × ChunkAssembler
    → Result (Option Bytes) × ChunkAssembler
go_on rest (ok none, a) = rest a
go_on rest (ok (some r), a) = (ok (some r), a)
go_on rest (raise e, a) = (raise e, a)

pub feed_until : List Bytes → ChunkAssembler → Result (Option Bytes) × ChunkAssembler
feed_until [] a = (ok none, a)
feed_until (frame ∷ frames) a = go_on (feed_until frames) (feed frame a)

feed_until-chunks :
    (chunks frames : List Bytes) (a : ChunkAssembler)
    → feed_until (map (response tag_nxt) chunks ++ frames) a
      ≡ feed_until frames (record { body = a.body ++ flatten chunks })
unfolding feed_until flatten
feed_until-chunks [] frames a =
    ap (λ (b : Bytes). feed_until frames (record { body = b })) (sym (append-nil a.body))
feed_until-chunks (c ∷ chunks) frames a =
    rw (feed-nxt c a, feed_until-chunks chunks frames, append_assoc)

-- However a body is cut into chunks, the frames `nxt|` for each and `ok|` for the last are answered
-- by `ok|` and the whole body. What follows is not consumed, and the assembler is empty again.
pub feed_until_ok :
    (chunks rest : List Bytes) (last : Bytes)
    → feed_until (map (response tag_nxt) chunks ++ response tag_ok last ∷ rest) new_assembler
      ≡ (ok (some (response tag_ok (flatten chunks ++ last))), new_assembler)
unfolding feed_until
feed_until_ok chunks rest last =
    rw (feed_until-chunks chunks (response tag_ok last ∷ rest) new_assembler, feed-ok)

-- An error frame after any number of chunks raises the exception of its code, discards the chunks,
-- and leaves the assembler empty.
pub feed_until_err :
    (chunks rest : List Bytes) (code : ℕ) (message : Bytes)
    → code ≤ 9999
    → feed_until (map (response tag_nxt) chunks ++ error_reply code message ∷ rest) new_assembler
      ≡ (raise (protocol_error code (decode message)), new_assembler)
unfolding feed_until
feed_until_err chunks rest code message h = rw (
  feed_until-chunks chunks (error_reply code message ∷ rest) new_assembler,
  feed-err code message _ h,
)
