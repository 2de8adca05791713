-- ===== src/Responses.antt =====
-- fq/_responses.py: the decoders of response payloads.
mod Body
mod Parsers
pub mod Numbers
pub mod Reuse
pub mod Raises
pub mod Render
pub mod RoundTrip
pub use Body.{resp_delimiter, field_delimiter, tag_ok, tag_err, tag_nxt, raise_parsed, delimited}
unfoldable pub use Body.{
  split_response, parse_error, ok_data, parse_uint, parse_bool_field, fields, parse_uints,
}
pub use Parsers.{HelloInfo, no_fields}
unfoldable pub use Parsers.{
  parse_value, parse_bool, parse_values, parse_bools, parse_hello, parse_rate_limit,
  parse_quota_acquire, parse_quota_info, parse_scan, parse_limit_event, parse_quota_event,
  client_infos, scan_keys, hello_fields, rate_limit_fields, quota_acquire_fields,
  limit_event_fields, quota_event_fields, quota_info_fields, scan_fields,
}
