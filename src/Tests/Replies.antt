-- ===== src/Tests/Replies.antt =====
-- The decoders of fq/_responses.py at concrete responses.
use fq_client_py.Prelude.{str_eq, ℕ, ◌≤◌, ◌≡◌, refl, [], ◌∷◌, map, text, arith, true, false}
use fq_client_py.Errors.{ok, protocol_error}
use fq_client_py.Python.Decimal.{decimal}
use fq_client_py.Python.Split.{partition, split}
use fq_client_py.Python.Utf8.{decode}
use fq_client_py.Types.{RateLimitResult, ScanResult, QuotaInfo, QuotaEvent}
use fq_client_py.Responses.{
  ok_data, split_response, fields, rate_limit_fields, parse_bool_field, HelloInfo, parse_rate_limit,
  parse_uint, parse_scan, parse_values,
}
use fq_client_py.Responses.Numbers.{Fits, max_value-Fits}
use fq_client_py.Responses.Reuse.{Reusable, parse_scan-Reusable}
use fq_client_py.Responses.Raises.Decoders.{DecodersRaiseFq, DecodersRaiseFq-errors}
use fq_client_py.Responses.Render.{reply, error_reply, scan_parts, IsField}
use fq_client_py.Responses.RoundTrip.Sequences.{parse_values-reply, parse_scan-reply}
use fq_client_py.Responses.RoundTrip.Failures.{AllRaise, error_reply_raises}

abbrev granted : RateLimitResult
granted = record { allowed = true; current = 5; remaining = 95; reset_after = 30 }

rate_limited : parse_rate_limit (text "ok|1;5;95;30") ≡ ok granted
unfolding parse_rate_limit ok_data split_response partition str_eq fields split rate_limit_fields
    parse_bool_field parse_uint
rate_limited = refl

eleven-IsField : IsField (text "user_42")
eleven-IsField = omega arith

small-Fits : (n : ℕ) → n ≤ 9999 → Fits n
small-Fits n h = max_value-Fits n (omega arith)

abbrev session : HelloInfo
session = record {
  version = 1;
  max_message_size = 4096;
  auth_required = false;
  role = text "admin";
}

abbrev acquired_event : QuotaEvent
acquired_event = record {
  event = text "acquired";
  name = text "jobs";
  client_id = text "worker_1";
  amount = 5;
  used = 15;
  remaining = 85;
  expires_at = 9000;
}

abbrev page : ScanResult
page = record {
  cursor = text "7";
  keys =
      record { key = text "user_42"; window = 60 } ∷ record { key = text "ключ"; window = 1 } ∷ [];
}

parse_scan-reply_example : parse_scan (reply (scan_parts page)) ≡ ok page
parse_scan-reply_example = parse_scan-reply page (
  omega arith,
  ((omega arith, small-Fits 60 (omega arith)), ((omega arith, small-Fits 1 (omega arith)), tt)),
)

parse_scan-Reusable_example : Reusable page
parse_scan-Reusable_example =
    parse_scan-Reusable (reply (scan_parts page)) page parse_scan-reply_example

abbrev quota : QuotaInfo
quota = record {
  limit = 100;
  used = 5;
  remaining = 95;
  clients = record { client_id = text "worker_1"; amount = 5; expires_at = 9000 } ∷ [];
}

parse_values-reply_example : parse_values (reply (map decimal (3 ∷ 0 ∷ []))) ≡ ok (3 ∷ 0 ∷ [])
parse_values-reply_example =
    parse_values-reply 3 (0 ∷ []) (small-Fits 3 (omega arith), (small-Fits 0 (omega arith), tt))

DecodersRaiseFq-errors_example : DecodersRaiseFq (text "ok|-1;2")
DecodersRaiseFq-errors_example = DecodersRaiseFq-errors (text "ok|-1;2") (omega arith)

error_reply_raises_example :
    AllRaise (error_reply 2009 (text "overflow")) (protocol_error 2009 (decode (text "overflow")))
error_reply_raises_example = error_reply_raises 2009 (text "overflow") (omega arith)
