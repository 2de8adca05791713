-- ===== src/Framing/RoundTrip.antt =====
-- The header that fq/_framing.py writes is the one that it reads.
use fq_client_py.Prelude.{
  ℕ, ◌/◌, ◌%◌, ◌^◌, ◌≤◌, ◌<◌, ◌≡◌, ◌≢◌, [], ◌∷◌, ◌++◌, Bytes, length, All, IsByte, arith, ltb,
  if◌then◌else◌,
}
use fq_client_py.Errors.{Exn, ok, raise, corrupted_response_error}
use fq_client_py.Framing.{encode_frame, decode_frame_size, check_request_size, frame_header_size}

abbrev header_of : ℕ → Bytes
header_of n = (n / 2 ^ 24) ∷ (n / 2 ^ 16 % 256) ∷ (n / 2 ^ 8 % 256) ∷ (n % 256) ∷ []

-- A payload below 2 ^ 32 bytes is framed by a header of four bytes. Reading the header gives the
-- length of the payload back, or is refused as corrupted if the length passes the limit.
pub decode_frame_size-encode_frame :
    (payload : Bytes) (max_message_size : ℕ)
    → length payload < 2 ^ 32
    → (header : Bytes) × (encode_frame payload ≡ ok (header ++ payload))
      × All IsByte header
      × (length header ≡ frame_header_size)
      × (decode_frame_size header max_message_size ≡ (
          if ltb max_message_size (length payload)
          then raise corrupted_response_error
          else ok (length payload)))
unfolding encode_frame decode_frame_size
decode_frame_size-encode_frame payload max_message_size fits =
    (header_of (length payload), ground arith, ground arith, ground arith, ground arith)

-- A header of bytes that is accepted is the one that a frame of the size it names would have, and
-- that size is within the limit.
pub encode_frame-decode_frame_size :
    (header payload : Bytes) (max_message_size : ℕ)
    → All IsByte header
    → decode_frame_size header max_message_size ≡ ok (length payload)
    → (encode_frame payload ≡ ok (header ++ payload)) × (length payload ≤ max_message_size)
unfolding encode_frame decode_frame_size
encode_frame-decode_frame_size [] payload m h e = ground arith
encode_frame-decode_frame_size (a ∷ []) payload m h e = ground arith
encode_frame-decode_frame_size (a ∷ b ∷ []) payload m h e = ground arith
encode_frame-decode_frame_size (a ∷ b ∷ c ∷ []) payload m h e = ground arith
encode_frame-decode_frame_size (a ∷ b ∷ c ∷ d ∷ []) payload m h e = ground arith
encode_frame-decode_frame_size (a ∷ b ∷ c ∷ d ∷ x ∷ r) payload m h e = ground arith

-- A request that passes the local size check is framed, where the limit is below 2 ^ 32.
pub check_request_size-encode_frame :
    (payload : Bytes) (max_message_size : ℕ) (e : Exn)
    → max_message_size < 2 ^ 32
    → check_request_size payload max_message_size ≡ ok tt
    → encode_frame payload ≢ raise e
unfolding check_request_size encode_frame
check_request_size-encode_frame payload m e h c = ground arith
