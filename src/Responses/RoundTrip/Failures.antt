-- ===== src/Responses/RoundTrip/Failures.antt =====
-- Error responses, and the end of every decoder of fq/_responses.py that meets one.
use fq_client_py.Prelude.{ℕ, ◌≤◌, ◌≡◌, refl, ◌≢◌, Bytes, arith, str_eq, str_eq_sound, ◌∷◌, ◌++◌}
use fq_client_py.Errors.{Exn, ok, raise, protocol_error, corrupted_response_error}
use fq_client_py.Python.Split.Laws.{Lacks, partition-append, partition_missing}
use fq_client_py.Python.Utf8.{decode}
use fq_client_py.Python.Decimal.{decimal, is_digit}
use fq_client_py.Responses.{
  resp_delimiter, tag_ok, tag_err, split_response, parse_error, ok_data, parse_value, parse_bool,
  parse_values, parse_bools, parse_hello, parse_rate_limit, parse_quota_acquire, parse_quota_info,
  parse_scan, parse_limit_event, parse_quota_event,
}
use fq_client_py.Responses.Numbers.{max_value-Fits, parse_uint-decimal, decimal-Lacks}
use fq_client_py.Responses.Render.{response, error_reply}
use fq_client_py.Responses.RoundTrip.{split_response-response}

pub parse_error-reply :
    (code : ℕ) (message : Bytes)
    → code ≤ 9999
    → parse_error (decimal code ++ resp_delimiter ∷ message)
      ≡ ok (protocol_error code (decode message))
unfolding parse_error
parse_error-reply code message h =
    rw
      (
        partition-append resp_delimiter (decimal code) message
            (decimal-Lacks resp_delimiter code (unfold is_digit in refl)),
        parse_uint-decimal code (max_value-Fits code (omega arith)),
      )
      (ground arith)

pub ok_data-error_reply :
    (code : ℕ) (message : Bytes)
    → code ≤ 9999
    → ok_data (error_reply code message) ≡ raise (protocol_error code (decode message))
unfolding ok_data str_eq
ok_data-error_reply code message h =
    rw (split_response-response tag_err _ (omega arith), parse_error-reply code message h)

ok_data_undelimited :
    (payload : Bytes)
    → Lacks resp_delimiter payload
    → ok_data payload ≡ raise corrupted_response_error
unfolding ok_data split_response
ok_data_undelimited payload h = rw (partition_missing resp_delimiter payload h)

ok_data_unknown :
    (tag body : Bytes)
    → Lacks resp_delimiter tag
    → tag ≢ tag_ok
    → tag ≢ tag_err
    → ok_data (response tag body) ≡ raise corrupted_response_error
unfolding ok_data
ok_data_unknown tag body h k l =
    rw (split_response-response tag body h)
      (ground (arith, str_eq_sound tag tag_ok, str_eq_sound tag tag_err))

-- The exception that ends every decoder, when the response has no body to read.
abbrev pub AllRaise : Bytes → Exn → Type 0
AllRaise payload e =
    (parse_value payload ≡ raise e)
    × (parse_bool payload ≡ raise e)
    × (parse_values payload ≡ raise e)
    × (parse_bools payload ≡ raise e)
    × (parse_hello payload ≡ raise e)
    × (parse_rate_limit payload ≡ raise e)
    × (parse_quota_acquire payload ≡ raise e)
    × (parse_quota_info payload ≡ raise e)
    × (parse_scan payload ≡ raise e)
    × (parse_limit_event payload ≡ raise e)
    × (parse_quota_event payload ≡ raise e)

ok_data-AllRaise : (payload : Bytes) (e : Exn) → ok_data payload ≡ raise e → AllRaise payload e
unfolding parse_value parse_bool parse_values parse_bools parse_hello parse_rate_limit
    parse_quota_acquire parse_quota_info parse_scan parse_limit_event parse_quota_event
ok_data-AllRaise payload e h = (rw h, rw h, rw h, rw h, rw h, rw h, rw h, rw h, rw h, rw h, rw h)

-- An `err|<code>|<message>` response, with a code up to 9999, ends each of the eleven decoders with
-- the exception of the code's class, which carries the code and the message.
pub error_reply_raises :
    (code : ℕ) (message : Bytes)
    → code ≤ 9999
    → AllRaise (error_reply code message) (protocol_error code (decode message))
error_reply_raises code message h = ok_data-AllRaise _ _ (ok_data-error_reply code message h)

-- A response with no delimiter, or with a tag other than `ok` and `err`, ends each of the eleven
-- decoders with CorruptedResponseError.
pub unknown_tag_raises :
    (tag body : Bytes)
    → Lacks resp_delimiter tag
    → tag ≢ tag_ok
    → tag ≢ tag_err
    → AllRaise tag corrupted_response_error × AllRaise (response tag body) corrupted_response_error
unknown_tag_raises tag body h k l = (
  ok_data-AllRaise _ _ (ok_data_undelimited tag h),
  ok_data-AllRaise _ _ (ok_data_unknown tag body h k l),
)
