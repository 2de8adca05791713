-- ===== src/Tests/Wire.antt =====
-- Frames, chunks, error classes and TLS settings: fq/_framing.py, fq/_chunked.py, fq/errors.py and
-- fq/types.py at concrete inputs.
use mathlib.Core.List.{flatten}
use fq_client_py.Prelude.{
  ◌≡◌, ◌↔◌, refl, List, [], ◌∷◌, ◌++◌, map, Bytes, text, length, All, IsByte, arith, some, true,
  false,
}
use fq_client_py.Errors.{ok, raise, protocol_error, protocol, auth_error, corrupted_response_error}
use fq_client_py.Errors.Ranges.{InRange, protocol_error_by_range}
use fq_client_py.Framing.{encode_frame, decode_frame_size, frame_header_size}
use fq_client_py.Framing.RoundTrip.{decode_frame_size-encode_frame}
use fq_client_py.Responses.{tag_nxt, tag_ok}
use fq_client_py.Responses.Render.{response}
use fq_client_py.Chunked.{new_assembler}
use fq_client_py.Chunked.Assembly.{feed_until, feed_until_ok}
use fq_client_py.Types.Tls.Checks.{IsChecked, build_context-IsChecked}
use fq_client_py.Types.Tls.{tls_1_2, TlsConfig, SslContext, Files, build_context}

hello_frame : encode_frame (text "HELLO 1") ≡ ok (0 ∷ 0 ∷ 0 ∷ 7 ∷ text "HELLO 1")
unfolding encode_frame
hello_frame = refl

limit_exceeded : decode_frame_size (0 ∷ 0 ∷ 16 ∷ 1 ∷ []) 4096 ≡ raise corrupted_response_error
unfolding decode_frame_size
limit_exceeded = refl

decode_frame_size-encode_frame_example :
    (header : Bytes) × (encode_frame (text "HELLO 1") ≡ ok (header ++ text "HELLO 1"))
    × All IsByte header
    × (length header ≡ frame_header_size)
    × (decode_frame_size header 4096 ≡ ok 7)
decode_frame_size-encode_frame_example =
    decode_frame_size-encode_frame (text "HELLO 1") 4096 (omega arith)

accepted_header : decode_frame_size (0 ∷ 0 ∷ 0 ∷ 3 ∷ []) 4096 ≡ ok (length (text "ok|"))
unfolding decode_frame_size
accepted_header = refl

protocol_error_by_range_example :
    (protocol_error 3001 (text "denied") ≡ protocol auth_error 3001 (text "denied"))
    ↔ InRange auth_error 3001
protocol_error_by_range_example = protocol_error_by_range auth_error 3001 (text "denied")

abbrev two_chunks : List Bytes
two_chunks = text "{\"sec" ∷ text "tion\":" ∷ []

feed_until_ok_example :
    feed_until (map (response tag_nxt) two_chunks ++ response tag_ok (text "1}") ∷ []) new_assembler
    ≡ (ok (some (text "ok|{\"section\":1}")), new_assembler)
unfolding flatten
feed_until_ok_example = feed_until_ok two_chunks [] (text "1}")

abbrev all_readable : Files
all_readable = record { load_ca = λ ca. ok tt; load_chain = λ cert key. ok tt }

abbrev mutual_tls : TlsConfig
mutual_tls = record {
  ca_file = text "ca.crt";
  cert_file = text "client.crt";
  key_file = text "client.key";
  server_name = text "fq.internal";
  skip_verify = false;
  min_version = [];
}

abbrev mutual_context : SslContext
mutual_context = record {
  ca_file = some (text "ca.crt");
  minimum_version = tls_1_2;
  check_hostname = true;
  verify = true;
  cert_chain = some (text "client.crt", text "client.key");
}

mutual_context_built : build_context all_readable mutual_tls ≡ ok mutual_context
unfolding build_context
mutual_context_built = refl

build_context-IsChecked_example : IsChecked mutual_tls mutual_context
build_context-IsChecked_example =
    build_context-IsChecked all_readable mutual_tls mutual_context_built
