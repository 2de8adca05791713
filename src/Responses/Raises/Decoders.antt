-- ===== src/Responses/Raises/Decoders.antt =====
-- The promise of fq/_responses.py: a decoder returns, or raises an exception of the client.
use fq_client_py.Prelude.{
  refl, ◌≤◌, ◌-◌, ◌%◌, ◌≡◌, ◌≢◌, not, ◌||◌, List, [], ◌∷◌, Bytes, length, ltb, ◌==◌, All, arith,
  if◌then◌else◌,
}
use fq_client_py.Errors.{Result, raise, corrupted_response_error, is_fq_error}
use fq_client_py.Errors.Raises.{
  Ends, RaisesOnly-Ends, RaisesOnly-ok, RaisesOnly-raise, RaisesOnly-if, RaisesOnly-bind,
}
use fq_client_py.Python.Decimal.{max_str_digits}
use fq_client_py.Responses.{
  parse_value, parse_bool, parse_values, parse_bools, parse_hello, parse_rate_limit,
  parse_quota_acquire, parse_quota_info, parse_scan, parse_limit_event, parse_quota_event,
  client_infos, scan_keys, quota_info_fields, scan_fields, parse_uint, ok_data, parse_uints,
  hello_fields, rate_limit_fields, quota_acquire_fields, limit_event_fields, quota_event_fields,
}
use fq_client_py.Responses.Raises.{
  Short, Fq, parse_uint-Fq, parse_bool_field-Fq, rate_limit_fields-Fq, quota_acquire_fields-Fq,
  limit_event_fields-Fq, quota_event_fields-Fq, hello_fields-Fq, parse_uints-Fq, ok_data-Fq,
  ok_data-Short, fielded-Fq, split-Fq,
}

scan_keys-Fq : (parts : List Bytes) → length parts % 2 ≡ 0 → All Short parts → Fq (scan_keys parts)
unfolding scan_keys
scan_keys-Fq [] even h = RaisesOnly-ok []
scan_keys-Fq (k ∷ []) even h = absurd (omega arith)
scan_keys-Fq (k ∷ w ∷ rest) even (hk, (hw, h)) =
    RaisesOnly-bind (parse_uint w) _ (parse_uint-Fq w hw) λ _ _.
      RaisesOnly-bind (scan_keys rest) _ (scan_keys-Fq rest (omega arith) h) λ _ _. RaisesOnly-ok _

client_infos-Fq :
    (parts : List Bytes) → length parts % 3 ≡ 0 → All Short parts → Fq (client_infos parts)
unfolding client_infos
client_infos-Fq [] whole h = RaisesOnly-ok []
client_infos-Fq (c ∷ []) whole h = absurd (omega arith)
client_infos-Fq (c ∷ a ∷ []) whole h = absurd (omega arith)
client_infos-Fq (c ∷ a ∷ t ∷ rest) whole (hc, (ha, (ht, h))) =
    RaisesOnly-bind (parse_uint a) _ (parse_uint-Fq a ha) λ _ _.
      RaisesOnly-bind (parse_uint t) _ (parse_uint-Fq t ht) λ _ _.
        RaisesOnly-bind (client_infos rest) _ (client_infos-Fq rest (omega arith) h)
          λ _ _. RaisesOnly-ok _

scan_fields-Fq :
    (parts : List Bytes)
    → parts ≢ []
    → All Short parts
    → Fq (
        if not ((length parts - 1) % 2 == 0)
        then raise corrupted_response_error
        else scan_fields parts)
unfolding scan_fields is_fq_error
scan_fields-Fq [] full h = absurd (full refl)
scan_fields-Fq (cursor ∷ rest) full h =
    RaisesOnly-if (not ((length (cursor ∷ rest) - 1) % 2 == 0)) _ _ (λ _. RaisesOnly-raise _ refl)
      λ e.
        RaisesOnly-bind (scan_keys rest) _ (scan_keys-Fq rest (ground arith) h.1)
          λ _ _. RaisesOnly-ok _

quota_info_fields-Fq :
    (parts : List Bytes)
    → All Short parts
    → Fq (
        if ltb (length parts) 3 || not ((length parts - 3) % 3 == 0)
        then raise corrupted_response_error
        else quota_info_fields parts)
unfolding quota_info_fields is_fq_error
quota_info_fields-Fq (l ∷ u ∷ r ∷ rest) (hl, (hu, (hr, h))) =
    RaisesOnly-if
      (ltb (length (l ∷ u ∷ r ∷ rest)) 3 || not ((length (l ∷ u ∷ r ∷ rest) - 3) % 3 == 0)) _ _
      (λ _. RaisesOnly-raise _ refl)
      λ e. RaisesOnly-bind (client_infos rest) _ (client_infos-Fq rest (ground arith) h) λ _ _.
        RaisesOnly-bind (parse_uint l) _ (parse_uint-Fq l hl) λ _ _.
          RaisesOnly-bind (parse_uint u) _ (parse_uint-Fq u hu)
            λ _ _. RaisesOnly-bind (parse_uint r) _ (parse_uint-Fq r hr) λ _ _. RaisesOnly-ok _
quota_info_fields-Fq _ h = RaisesOnly-raise _ refl

abbrev DecodersFq : Bytes → Type 0
DecodersFq payload =
    Fq (parse_value payload)
    × Fq (parse_bool payload)
    × Fq (parse_values payload)
    × Fq (parse_bools payload)
    × Fq (parse_hello payload)
    × Fq (parse_rate_limit payload)
    × Fq (parse_quota_acquire payload)
    × Fq (parse_quota_info payload)
    × Fq (parse_scan payload)
    × Fq (parse_limit_event payload)
    × Fq (parse_quota_event payload)

decoders-Fq : (payload : Bytes) → length payload ≤ max_str_digits → DecodersFq payload
unfolding parse_value parse_bool parse_values parse_bools parse_hello parse_rate_limit
    parse_quota_acquire parse_quota_info parse_scan parse_limit_event parse_quota_event
decoders-Fq payload h = (
  RaisesOnly-bind (ok_data payload) _ (ok_data-Fq payload h)
      (λ body e. parse_uint-Fq body (ok_data-Short payload body h e)),
  RaisesOnly-bind (ok_data payload) _ (ok_data-Fq payload h) (λ body e. parse_bool_field-Fq body),
  split-Fq parse_uints payload (λ parts _. parse_uints-Fq parts) h,
  RaisesOnly-bind (parse_values payload) _
      (split-Fq parse_uints payload (λ parts _. parse_uints-Fq parts) h)
      (λ values _. RaisesOnly-ok _),
  fielded-Fq 4 hello_fields payload hello_fields-Fq h,
  fielded-Fq 4 rate_limit_fields payload rate_limit_fields-Fq h,
  fielded-Fq 5 quota_acquire_fields payload quota_acquire_fields-Fq h,
  split-Fq _ payload (λ parts _. quota_info_fields-Fq parts) h,
  split-Fq _ payload scan_fields-Fq h,
  fielded-Fq 4 limit_event_fields payload limit_event_fields-Fq h,
  fielded-Fq 7 quota_event_fields payload quota_event_fields-Fq h,
)

abbrev FqEnds : {A : Type 0} → Result A → Type 0
FqEnds = Ends is_fq_error

fq : {A : Type 0} (r : Result A) → Fq r → FqEnds r
fq r h = RaisesOnly-Ends is_fq_error r h

-- Each of the eleven decoders returns a value or raises an FQError.
abbrev pub DecodersRaiseFq : Bytes → Type 0
DecodersRaiseFq payload =
    FqEnds (parse_value payload)
    × FqEnds (parse_bool payload)
    × FqEnds (parse_values payload)
    × FqEnds (parse_bools payload)
    × FqEnds (parse_hello payload)
    × FqEnds (parse_rate_limit payload)
    × FqEnds (parse_quota_acquire payload)
    × FqEnds (parse_quota_info payload)
    × FqEnds (parse_scan payload)
    × FqEnds (parse_limit_event payload)
    × FqEnds (parse_quota_event payload)

-- For a payload of at most 4300 bytes, each of the eleven decoders returns a value or raises an
-- FQError: a response that does not fit the format never ends in another exception of Python.
pub DecodersRaiseFq-errors :
    (payload : Bytes) → length payload ≤ max_str_digits → DecodersRaiseFq payload
DecodersRaiseFq-errors payload short =
    let (a, b, c, d, e, f, g, h, i, j, k) = decoders-Fq payload short in
    (fq _ a, fq _ b, fq _ c, fq _ d, fq _ e, fq _ f, fq _ g, fq _ h, fq _ i, fq _ j, fq _ k)
