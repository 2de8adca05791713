-- ===== src/Responses/Body.antt =====
-- The tag and the fields of a response, of fq/_responses.py.
use fq_client_py.Prelude.{
  ℕ, Bool, true, false, not, ◌||◌, List, [], ◌∷◌, Bytes, text, ltb, ◌==◌, str_eq, length,
  if◌then◌else◌,
}
use fq_client_py.Errors.{Exn, Result, ok, raise, corrupted_response_error, protocol_error, ◌>>=◌}
use fq_client_py.Python.Split.{partition, split}
use fq_client_py.Python.Utf8.{decode}
use fq_client_py.Python.Decimal.{isdigit, isascii, int_bytes}

abbrev pub resp_delimiter : ℕ
resp_delimiter = b'|'

abbrev pub field_delimiter : ℕ
field_delimiter = b';'

abbrev pub tag_ok : Bytes
tag_ok = text "ok"

abbrev pub tag_err : Bytes
tag_err = text "err"

abbrev pub tag_nxt : Bytes
tag_nxt = text "nxt"

-- The test `if not delimiter` on a result of `partition`.
abbrev pub delimited : Bytes × Bytes × Bytes → Result (Bytes × Bytes)
delimited (head, [], tail) = raise corrupted_response_error
delimited (head, _ ∷ _, tail) = ok (head, tail)

unfoldable pub split_response : Bytes → Result (Bytes × Bytes)
split_response payload = delimited (partition resp_delimiter payload)

unfoldable pub parse_uint : Bytes → Result ℕ
unfolding isdigit isascii int_bytes
parse_uint [] = raise corrupted_response_error
parse_uint (c ∷ s) =
    if not (isdigit (c ∷ s)) || not (isascii (c ∷ s))
    then raise corrupted_response_error
    else int_bytes (c ∷ s)

-- The exception that the body of an error response stands for.
unfoldable pub parse_error : Bytes → Result Exn
parse_error body = do
  (code_field, message) ← delimited (partition resp_delimiter body)
  code ← parse_uint code_field
  if ltb 9999 code
      then raise corrupted_response_error
      else ok (protocol_error code (decode message))

-- `raise parse_error(data)`
abbrev pub raise_parsed {ℓ} : {A : Type ℓ} → Result Exn → Result A
raise_parsed (ok e) = raise e
raise_parsed (raise e) = raise e

unfoldable pub ok_data : Bytes → Result Bytes
ok_data payload = do
  (tag, body) ← split_response payload
  if str_eq tag tag_ok
      then ok body
      else if str_eq tag tag_err
      then raise_parsed (parse_error body)
      else raise corrupted_response_error

unfoldable pub parse_bool_field : Bytes → Result Bool
unfolding str_eq
parse_bool_field field =
    if str_eq field (text "1")
    then ok true
    else if str_eq field (text "0")
    then ok false
    else raise corrupted_response_error

unfoldable pub fields : Bytes → ℕ → Result (List Bytes)
fields body expected =
    let parts = split field_delimiter body in
    if length parts == expected then ok parts else raise corrupted_response_error

-- `tuple(parse_uint(field) for field in parts)`
unfoldable pub parse_uints : List Bytes → Result (List ℕ)
parse_uints [] = ok []
parse_uints (field ∷ rest) = do n ← parse_uint field; ns ← parse_uints rest; ok (n ∷ ns)
