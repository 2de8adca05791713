-- ===== src/Responses/Render.antt =====
-- The responses as the docstrings of fq/_responses.py describe them, written by a server: `ok|`,
-- and the fields with `;` between them. Numbers are decimal and texts are UTF-8.
use fq_client_py.Prelude.{
  ℕ, ◌<◌, Bool, true, false, List, [], ◌∷◌, ◌++◌, Str, Bytes, text, All, IsScalar,
}
use fq_client_py.Python.Split.{join}
use fq_client_py.Python.Split.Laws.{Lacks}
use fq_client_py.Python.Utf8.Laws.{utf8}
use fq_client_py.Python.Decimal.{decimal}
use fq_client_py.Types.{
  RateLimitResult, LimitEvent, QuotaAcquireResult, QuotaClientInfo, QuotaInfo, ScanKey, ScanResult,
  QuotaEvent,
}
use fq_client_py.Responses.{HelloInfo, resp_delimiter, field_delimiter, tag_ok, tag_err}
use fq_client_py.Responses.Numbers.{Fits}

abbrev pub response : Bytes → Bytes → Bytes
response tag body = tag ++ resp_delimiter ∷ body

abbrev pub reply : List Bytes → Bytes
reply parts = response tag_ok (join field_delimiter parts)

abbrev pub error_reply : ℕ → Bytes → Bytes
error_reply code message = response tag_err (decimal code ++ resp_delimiter ∷ message)

abbrev pub bool_field : Bool → Bytes
bool_field true = text "1"
bool_field false = text "0"

-- A text that can stand in a field.
abbrev pub IsField : Str → Type 0
IsField s = All IsScalar s × Lacks field_delimiter s

abbrev pub hello_parts : HelloInfo → List Bytes
hello_parts i =
    decimal i.version ∷ decimal i.max_message_size ∷ bool_field i.auth_required ∷ utf8 i.role ∷ []

abbrev pub rate_limit_parts : RateLimitResult → List Bytes
rate_limit_parts r =
    bool_field r.allowed ∷ decimal r.current ∷ decimal r.remaining ∷ decimal r.reset_after ∷ []

abbrev pub quota_acquire_parts : QuotaAcquireResult → List Bytes
quota_acquire_parts r =
    bool_field r.acquired
    ∷ decimal r.allocated
    ∷ decimal r.used
    ∷ decimal r.remaining
    ∷ decimal r.expires_after
    ∷ []

abbrev pub client_parts : List QuotaClientInfo → List Bytes
client_parts [] = []
client_parts (c ∷ cs) = utf8 c.client_id ∷ decimal c.amount ∷ decimal c.expires_at ∷ client_parts cs

abbrev pub quota_info_parts : QuotaInfo → List Bytes
quota_info_parts q = decimal q.limit ∷ decimal q.used ∷ decimal q.remaining ∷ client_parts q.clients

abbrev pub scan_key_parts : List ScanKey → List Bytes
scan_key_parts [] = []
scan_key_parts (k ∷ ks) = utf8 k.key ∷ decimal k.window ∷ scan_key_parts ks

abbrev pub scan_parts : ScanResult → List Bytes
scan_parts r = utf8 r.cursor ∷ scan_key_parts r.keys

abbrev pub limit_event_parts : LimitEvent → List Bytes
limit_event_parts e = utf8 e.key ∷ decimal e.window ∷ decimal e.current ∷ decimal e.reset_after ∷ []

abbrev pub quota_event_parts : QuotaEvent → List Bytes
quota_event_parts e =
    utf8 e.event
    ∷ utf8 e.name
    ∷ utf8 e.client_id
    ∷ decimal e.amount
    ∷ decimal e.used
    ∷ decimal e.remaining
    ∷ decimal e.expires_at
    ∷ []

-- The values that a server can send: texts that fit a field, numbers that Python converts.
abbrev pub IsHello : HelloInfo → Type 0
IsHello i = Fits i.version × Fits i.max_message_size × (0 < i.max_message_size) × IsField i.role

abbrev pub IsRateLimit : RateLimitResult → Type 0
IsRateLimit r = Fits r.current × Fits r.remaining × Fits r.reset_after

abbrev pub IsQuotaAcquire : QuotaAcquireResult → Type 0
IsQuotaAcquire r = Fits r.allocated × Fits r.used × Fits r.remaining × Fits r.expires_after

abbrev pub IsClient : QuotaClientInfo → Type 0
IsClient c = IsField c.client_id × Fits c.amount × Fits c.expires_at

abbrev pub IsQuotaInfo : QuotaInfo → Type 0
IsQuotaInfo q = Fits q.limit × Fits q.used × Fits q.remaining × All IsClient q.clients

abbrev pub IsScanKey : ScanKey → Type 0
IsScanKey k = IsField k.key × Fits k.window

abbrev pub IsScan : ScanResult → Type 0
IsScan r = IsField r.cursor × All IsScanKey r.keys

abbrev pub IsLimitEvent : LimitEvent → Type 0
IsLimitEvent e = IsField e.key × Fits e.window × Fits e.current × Fits e.reset_after

abbrev pub IsQuotaEvent : QuotaEvent → Type 0
IsQuotaEvent e =
    IsField e.event
    × IsField e.name
    × IsField e.client_id
    × Fits e.amount
    × Fits e.used
    × Fits e.remaining
    × Fits e.expires_at
