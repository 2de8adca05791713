-- ===== src/Responses/Parsers.antt =====
-- The decoders of each response, of fq/_responses.py. A function `*_fields` reads the fields that
-- the decoder of that name unpacks, in the order of the source.
use fq_client_py.Prelude.{
  ℕ, ◌-◌, ◌%◌, Bool, not, ◌||◌, List, [], ◌∷◌, Str, Bytes, ltb, ◌==◌, length, map, if◌then◌else◌,
}
use fq_client_py.Errors.{
  Result, ok, raise, corrupted_response_error, value_error, index_error, ◌>>=◌,
}
use fq_client_py.Python.Split.{split}
use fq_client_py.Python.Utf8.{decode}
use fq_client_py.Types.{
  RateLimitResult, LimitEvent, QuotaAcquireResult, QuotaClientInfo, QuotaInfo, ScanKey, ScanResult,
  QuotaEvent,
}
use fq_client_py.Responses.Body.{
  field_delimiter, ok_data, parse_uint, parse_bool_field, fields, parse_uints,
}

unfoldable pub parse_value : Bytes → Result ℕ
parse_value payload = do body ← ok_data payload; parse_uint body

unfoldable pub parse_bool : Bytes → Result Bool
parse_bool payload = do body ← ok_data payload; parse_bool_field body

unfoldable pub parse_values : Bytes → Result (List ℕ)
parse_values payload = do body ← ok_data payload; parse_uints (split field_delimiter body)

-- `tuple(value == 1 for value in ...)`
abbrev pub are_one : List ℕ → Result (List Bool)
are_one values = ok (map (λ n. n == 1) values)

unfoldable pub parse_bools : Bytes → Result (List Bool)
parse_bools payload = do values ← parse_values payload; are_one values

pub record HelloInfo : Type 0 where
  pub version : ℕ
  pub max_message_size : ℕ
  pub auth_required : Bool
  pub role : Str

-- Unpacking a list of another length is Python's ValueError.
abbrev pub no_fields {ℓ} : {A : Type ℓ} → Result A
no_fields = raise value_error

unfoldable pub hello_fields : List Bytes → Result HelloInfo
hello_fields (version ∷ max_message_size ∷ auth_required ∷ role ∷ []) = do
  size ← parse_uint max_message_size
  if size == 0 then raise corrupted_response_error else do
    v ← parse_uint version
    auth ← parse_bool_field auth_required
    ok (record { version = v; max_message_size = size; auth_required = auth; role = decode role })
hello_fields _ = no_fields

unfoldable pub parse_hello : Bytes → Result HelloInfo
parse_hello payload = do body ← ok_data payload; parts ← fields body 4; hello_fields parts

unfoldable pub rate_limit_fields : List Bytes → Result RateLimitResult
rate_limit_fields (allowed ∷ current ∷ remaining ∷ reset_after ∷ []) = do
  a ← parse_bool_field allowed
  c ← parse_uint current
  r ← parse_uint remaining
  t ← parse_uint reset_after
  ok (record { allowed = a; current = c; remaining = r; reset_after = t })
rate_limit_fields _ = no_fields

unfoldable pub parse_rate_limit : Bytes → Result RateLimitResult
parse_rate_limit payload = do body ← ok_data payload; parts ← fields body 4; rate_limit_fields parts

unfoldable pub quota_acquire_fields : List Bytes → Result QuotaAcquireResult
quota_acquire_fields (acquired ∷ allocated ∷ used ∷ remaining ∷ expires_after ∷ []) = do
  a ← parse_bool_field acquired
  l ← parse_uint allocated
  u ← parse_uint used
  r ← parse_uint remaining
  t ← parse_uint expires_after
  ok (record { acquired = a; allocated = l; used = u; remaining = r; expires_after = t })
quota_acquire_fields _ = no_fields

unfoldable pub parse_quota_acquire : Bytes → Result QuotaAcquireResult
parse_quota_acquire payload = do
  body ← ok_data payload
  parts ← fields body 5
  quota_acquire_fields parts

-- The loop over `range(3, len(parts), 3)`, on the parts behind the third.
unfoldable pub client_infos : List Bytes → Result (List QuotaClientInfo)
client_infos [] = ok []
client_infos (client_id ∷ amount ∷ expires_at ∷ rest) = do
  a ← parse_uint amount
  t ← parse_uint expires_at
  clients ← client_infos rest
  ok (record { client_id = decode client_id; amount = a; expires_at = t } ∷ clients)
client_infos _ = raise index_error

-- The clients are read before the three numbers.
unfoldable pub quota_info_fields : List Bytes → Result QuotaInfo
quota_info_fields (limit ∷ used ∷ remaining ∷ rest) = do
  clients ← client_infos rest
  l ← parse_uint limit
  u ← parse_uint used
  r ← parse_uint remaining
  ok (record { limit = l; used = u; remaining = r; clients = clients })
quota_info_fields _ = raise index_error

unfoldable pub parse_quota_info : Bytes → Result QuotaInfo
parse_quota_info payload = do
  body ← ok_data payload
  let parts = split field_delimiter body
  if ltb (length parts) 3 || not ((length parts - 3) % 3 == 0)
      then raise corrupted_response_error
      else quota_info_fields parts

-- The loop over `range(1, len(parts), 2)`, on the parts behind the first.
unfoldable pub scan_keys : List Bytes → Result (List ScanKey)
scan_keys [] = ok []
scan_keys (key ∷ window ∷ rest) = do
  w ← parse_uint window
  keys ← scan_keys rest
  ok (record { key = decode key; window = w } ∷ keys)
scan_keys _ = raise index_error

unfoldable pub scan_fields : List Bytes → Result ScanResult
scan_fields (cursor ∷ rest) = do
  keys ← scan_keys rest
  ok (record { cursor = decode cursor; keys = keys })
scan_fields _ = raise index_error

unfoldable pub parse_scan : Bytes → Result ScanResult
parse_scan payload = do
  body ← ok_data payload
  let parts = split field_delimiter body
  if not ((length parts - 1) % 2 == 0) then raise corrupted_response_error else scan_fields parts

unfoldable pub limit_event_fields : List Bytes → Result LimitEvent
limit_event_fields (key ∷ window ∷ current ∷ reset_after ∷ []) = do
  w ← parse_uint window
  c ← parse_uint current
  t ← parse_uint reset_after
  ok (record { key = decode key; window = w; current = c; reset_after = t })
limit_event_fields _ = no_fields

unfoldable pub parse_limit_event : Bytes → Result LimitEvent
parse_limit_event payload = do
  body ← ok_data payload
  parts ← fields body 4
  limit_event_fields parts

unfoldable pub quota_event_fields : List Bytes → Result QuotaEvent
quota_event_fields (event ∷ name ∷ client_id ∷ amount ∷ used ∷ remaining ∷ expires_at ∷ []) = do
  a ← parse_uint amount
  u ← parse_uint used
  r ← parse_uint remaining
  t ← parse_uint expires_at
  ok (record {
    event = decode event;
    name = decode name;
    client_id = decode client_id;
    amount = a;
    used = u;
    remaining = r;
    expires_at = t;
  })
quota_event_fields _ = no_fields

unfoldable pub parse_quota_event : Bytes → Result QuotaEvent
parse_quota_event payload = do
  body ← ok_data payload
  parts ← fields body 7
  quota_event_fields parts
