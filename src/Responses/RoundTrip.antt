-- ===== src/Responses/RoundTrip.antt =====
-- What a server sends is what the decoders of fq/_responses.py return.
pub mod Sequences
pub mod Failures
use fq_client_py.Prelude.{
  ℕ, ◌-◌, ◌%◌, ◌≤◌, ◌≡◌, ◌≢◌, refl, ◌∙◌, ap, Bool, true, false, not, ◌||◌, List, [], ◌∷◌, ◌++◌, Str,
  Bytes, text, ltb, leb, ◌==◌, length, All, arith, str_eq, str_eq_refl,
}
use fq_client_py.Errors.{Result, ok, raise, protocol_error, ◌>>=◌}
use fq_client_py.Python.Split.{partition, split, join}
use fq_client_py.Python.Split.Laws.{Lacks, partition-append, split-join}
use fq_client_py.Python.Utf8.{decode}
use fq_client_py.Python.Utf8.Laws.{utf8, encode-utf8, decode-utf8, encode-Lacks}
use fq_client_py.Python.Decimal.{decimal, is_digit}
use fq_client_py.Types.{
  RateLimitResult, QuotaAcquireResult, QuotaInfo, QuotaClientInfo, ScanKey, ScanResult, LimitEvent,
  QuotaEvent,
}
use fq_client_py.Responses.{
  HelloInfo, resp_delimiter, field_delimiter, tag_ok, tag_err, tag_nxt, split_response, ok_data,
  parse_error, fields, parse_uint, parse_bool_field, parse_rate_limit, parse_quota_acquire,
  rate_limit_fields, quota_acquire_fields, hello_fields, parse_hello, parse_limit_event,
  parse_quota_event, limit_event_fields, quota_event_fields,
}
use fq_client_py.Responses.Numbers.{Fits, parse_uint-decimal, decimal-Lacks}
use fq_client_py.Responses.Render.{
  response, reply, error_reply, bool_field, IsField, hello_parts, rate_limit_parts,
  quota_acquire_parts, IsHello, IsRateLimit, IsQuotaAcquire, limit_event_parts, quota_event_parts,
  IsLimitEvent, IsQuotaEvent,
}

pub split_response-response :
    (tag body : Bytes)
    → Lacks resp_delimiter tag
    → split_response (response tag body) ≡ ok (tag, body)
unfolding split_response
split_response-response tag body h = rw (partition-append resp_delimiter tag body h)

pub ok_data-reply : (body : Bytes) → ok_data (response tag_ok body) ≡ ok body
unfolding ok_data
ok_data-reply body = rw (split_response-response tag_ok body (omega arith), str_eq_refl)

-- A body of parts is split into them.
pub fields-join :
    (p : Bytes) (ps : List Bytes)
    → All (Lacks field_delimiter) (p ∷ ps)
    → fields (join field_delimiter (p ∷ ps)) (length (p ∷ ps)) ≡ ok (p ∷ ps)
unfolding fields
fields-join p ps h = rw (split-join field_delimiter p ps h) (ground arith)

pub parse_bool_field-bool_field : (b : Bool) → parse_bool_field (bool_field b) ≡ ok b
unfolding parse_bool_field str_eq
parse_bool_field-bool_field true = refl
parse_bool_field-bool_field false = refl

pub bool_field-Lacks : (b : Bool) → Lacks field_delimiter (bool_field b)
bool_field-Lacks true = omega arith
bool_field-Lacks false = omega arith

pub decimal_field-Lacks : (n : ℕ) → Lacks field_delimiter (decimal n)
decimal_field-Lacks n = decimal-Lacks field_delimiter n (unfold is_digit in refl)

pub utf8-Lacks : (s : Str) → IsField s → Lacks field_delimiter (utf8 s)
utf8-Lacks s (scalar, lacks) =
    encode-Lacks field_delimiter s (utf8 s) (omega arith) lacks (encode-utf8 s scalar)

pub ruleset lacks_rules = (bool_field-Lacks, decimal_field-Lacks, utf8-Lacks)

-- A decoder that reads a fixed number of fields gets the fields of the response.
fielded-reply :
    {A : Type 0} (read : List Bytes → Result A) (p : Bytes) (ps : List Bytes)
    → All (Lacks field_delimiter) (p ∷ ps)
    → (do body ← ok_data (reply (p ∷ ps)); parts ← fields body (length (p ∷ ps)); read parts)
      ≡ read (p ∷ ps)
fielded-reply read p ps h = rw (ok_data-reply, fields-join p ps h)

pub parse_hello-reply : (i : HelloInfo) → IsHello i → parse_hello (reply (hello_parts i)) ≡ ok i
unfolding parse_hello hello_fields
parse_hello-reply i (v, m, pos, r) =
    fielded-reply hello_fields _ _ (search lacks_rules)
    ∙ ground (
      arith,
      parse_bool_field-bool_field i.auth_required,
      parse_uint-decimal _ v,
      parse_uint-decimal _ m,
      decode-utf8 i.role r.0,
    )

pub parse_rate_limit-reply :
    (r : RateLimitResult) → IsRateLimit r → parse_rate_limit (reply (rate_limit_parts r)) ≡ ok r
unfolding parse_rate_limit rate_limit_fields
parse_rate_limit-reply r (c, m, t) =
    fielded-reply rate_limit_fields _ _ (search lacks_rules)
    ∙ rw (
      parse_bool_field-bool_field,
      parse_uint-decimal _ c,
      parse_uint-decimal _ m,
      parse_uint-decimal _ t,
    )

pub parse_quota_acquire-reply :
    (r : QuotaAcquireResult)
    → IsQuotaAcquire r
    → parse_quota_acquire (reply (quota_acquire_parts r)) ≡ ok r
unfolding parse_quota_acquire quota_acquire_fields
parse_quota_acquire-reply r (l, u, m, t) =
    fielded-reply quota_acquire_fields _ _ (search lacks_rules)
    ∙ rw (
      parse_bool_field-bool_field,
      parse_uint-decimal _ l,
      parse_uint-decimal _ u,
      parse_uint-decimal _ m,
      parse_uint-decimal _ t,
    )

pub parse_limit_event-reply :
    (e : LimitEvent) → IsLimitEvent e → parse_limit_event (reply (limit_event_parts e)) ≡ ok e
unfolding parse_limit_event limit_event_fields
parse_limit_event-reply e (k, w, c, t) =
    fielded-reply limit_event_fields _ _ (search lacks_rules)
    ∙ rw (
      parse_uint-decimal _ w,
      parse_uint-decimal _ c,
      parse_uint-decimal _ t,
      decode-utf8 e.key k.0,
    )

pub parse_quota_event-reply :
    (e : QuotaEvent) → IsQuotaEvent e → parse_quota_event (reply (quota_event_parts e)) ≡ ok e
unfolding parse_quota_event quota_event_fields
parse_quota_event-reply e (v, n, c, a, u, r, t) =
    fielded-reply quota_event_fields _ _ (search lacks_rules depth 8)
    ∙ rw (
      parse_uint-decimal _ a,
      parse_uint-decimal _ u,
      parse_uint-decimal _ r,
      parse_uint-decimal _ t,
      decode-utf8 e.event v.0,
      decode-utf8 e.name n.0,
      decode-utf8 e.client_id c.0,
    )
