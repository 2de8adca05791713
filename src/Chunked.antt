-- ===== src/Chunked.antt =====
-- fq/_chunked.py: a response that the server split across several frames. The assembler's state is
-- the body collected so far.
pub mod Assembly
use fq_client_py.Prelude.{List, [], ◌∷◌, ◌++◌, Option, none, some, Bytes, str_eq, if◌then◌else◌}
use fq_client_py.Errors.{Result, ok, raise, corrupted_response_error}
use fq_client_py.Responses.{
  resp_delimiter, tag_ok, tag_err, tag_nxt, split_response, parse_error, raise_parsed,
}

pub record ChunkAssembler : Type 0 where
  pub body : Bytes

abbrev pub new_assembler : ChunkAssembler
new_assembler = record { body = [] }

-- The branches of `feed` behind `split_response`.
unfoldable pub feed_split :
    ChunkAssembler → Result (Bytes × Bytes) → Result (Option Bytes) × ChunkAssembler
feed_split a (raise e) = (raise e, a)
feed_split a (ok (tag, chunk)) =
    if str_eq tag tag_nxt
    then (ok none, record { body = a.body ++ chunk })
    else if str_eq tag tag_ok
    then (ok (some (tag_ok ++ resp_delimiter ∷ (a.body ++ chunk))), record { body = [] })
    else if str_eq tag tag_err
    then (raise_parsed (parse_error chunk), record { body = [] })
    else (raise corrupted_response_error, a)

unfoldable pub feed : Bytes → ChunkAssembler → Result (Option Bytes) × ChunkAssembler
unfolding feed_split
feed frame a = feed_split a (split_response frame)
