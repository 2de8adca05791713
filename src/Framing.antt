-- ===== src/Framing.antt =====
-- fq/_framing.py: a frame is a four-byte big-endian length and the payload.
pub mod RoundTrip
use fq_client_py.Prelude.{
  ℕ, ◌+◌, ◌*◌, ◌/◌, ◌%◌, ◌^◌, [], ◌∷◌, ◌++◌, Bytes, Str, text, ltb, ◌==◌, length, if◌then◌else◌,
}
use fq_client_py.Errors.{
  Result, ok, raise, overflow_error, corrupted_response_error, protocol, request_error, value,
  message_size_exceeds_maximum, ◌>>=◌,
}
use fq_client_py.Python.Decimal.{decimal}

abbrev pub frame_header_size : ℕ
frame_header_size = 4

-- `n.to_bytes(4, "big")`
unfoldable pub to_bytes : ℕ → Result Bytes
to_bytes n =
    if ltb n (2 ^ 32)
    then ok ((n / 2 ^ 24) ∷ (n / 2 ^ 16 % 256) ∷ (n / 2 ^ 8 % 256) ∷ (n % 256) ∷ [])
    else raise overflow_error

-- `int.from_bytes(b, "big")`, behind the number `n` read so far
abbrev pub from_bytes : ℕ → Bytes → ℕ
from_bytes n [] = n
from_bytes n (b ∷ bs) = from_bytes (n * 256 + b) bs

unfoldable pub encode_frame : Bytes → Result Bytes
unfolding to_bytes
encode_frame payload = do header ← to_bytes (length payload); ok (header ++ payload)

unfoldable pub decode_frame_size : Bytes → ℕ → Result ℕ
decode_frame_size header max_message_size =
    if length header == frame_header_size
    then (let size = from_bytes 0 header in
        if ltb max_message_size size then raise corrupted_response_error else ok size)
    else raise corrupted_response_error

abbrev pub size_message : ℕ → ℕ → Str
size_message n max_message_size =
    text "request of "
    ++ decimal n
    ++ text " bytes exceeds max message size "
    ++ decimal max_message_size

unfoldable pub check_request_size : Bytes → ℕ → Result (Unit {0})
unfolding value
check_request_size payload max_message_size =
    if ltb max_message_size (length payload)
    then raise (
        protocol request_error (value message_size_exceeds_maximum)
          (size_message (length payload) max_message_size))
    else ok tt
