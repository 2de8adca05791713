-- ===== src/Responses/Raises.antt =====
-- Which exceptions the parts of a response of fq/_responses.py raise when they are read.
pub mod Decoders
use fq_client_py.Prelude.{
  str_eq, ◌≢◌, ℕ, ◌≤◌, ◌≡◌, ◌-◌, ◌%◌, refl, Bool, true, false, List, [], ◌∷◌, Bytes, length, All,
  arith, ◌==◌,
}
use fq_client_py.Errors.{
  bind-eq-ok, Exn, Result, ok, raise, is_fq_error, protocol, ProtocolClass,
  corrupted_response_error, ◌>>=◌, protocol_error,
}
use fq_client_py.Errors.Raises.{
  RaisesOnly, RaisesOnly-ok, RaisesOnly-bind, RaisesOnly-if, raises_rules,
}
use fq_client_py.Python.Split.{partition, split}
use fq_client_py.Python.Split.Laws.{split-ne-nil}
use fq_client_py.Python.Split.Lengths.{AtMost, partition-AtMost, split-AtMost, All-AtMost-mono}
use fq_client_py.Python.Utf8.{decode}
use fq_client_py.Python.Decimal.{max_str_digits}
use fq_client_py.Responses.{
  split_response, parse_error, ok_data, parse_uint, parse_bool_field, fields, parse_uints, tag_ok,
  tag_err, field_delimiter, resp_delimiter, rate_limit_fields, quota_acquire_fields,
  limit_event_fields, quota_event_fields, hello_fields, delimited, raise_parsed,
}
use fq_client_py.Responses.Numbers.{parse_uint_errors}

abbrev pub Fq : {A : Type 0} → Result A → Type 0
Fq = RaisesOnly is_fq_error

abbrev pub Short : Bytes → Type 0
Short = AtMost max_str_digits

pub parse_uint-Fq : (f : Bytes) → Short f → Fq (parse_uint f)
parse_uint-Fq f h = record { at = λ e. parse_uint_errors f e h }

pub parse_bool_field-Fq : (f : Bytes) → Fq (parse_bool_field f)
unfolding parse_bool_field is_fq_error
parse_bool_field-Fq f = record { at = λ e h. ground arith }

pub parse_uints-Fq : (parts : List Bytes) → All Short parts → Fq (parse_uints parts)
unfolding parse_uints
parse_uints-Fq [] h = RaisesOnly-ok []
parse_uints-Fq (f ∷ rest) h = RaisesOnly-bind (parse_uint f) _ (parse_uint-Fq f h.0) λ n _.
    RaisesOnly-bind (parse_uints rest) _ (parse_uints-Fq rest h.1) λ ns _. RaisesOnly-ok (n ∷ ns)

ruleset field_rules = (raises_rules, parse_bool_field-Fq, parse_uint-Fq)

pub rate_limit_fields-Fq :
    (parts : List Bytes) → length parts ≡ 4 → All Short parts → Fq (rate_limit_fields parts)
unfolding rate_limit_fields
rate_limit_fields-Fq (a ∷ b ∷ c ∷ d ∷ []) n h = search field_rules depth 12
rate_limit_fields-Fq _ n h = absurd (omega arith)

pub quota_acquire_fields-Fq :
    (parts : List Bytes) → length parts ≡ 5 → All Short parts → Fq (quota_acquire_fields parts)
unfolding quota_acquire_fields
quota_acquire_fields-Fq (a ∷ b ∷ c ∷ d ∷ e ∷ []) n h = search field_rules depth 12
quota_acquire_fields-Fq _ n h = absurd (omega arith)

pub limit_event_fields-Fq :
    (parts : List Bytes) → length parts ≡ 4 → All Short parts → Fq (limit_event_fields parts)
unfolding limit_event_fields
limit_event_fields-Fq (a ∷ b ∷ c ∷ d ∷ []) n h = search field_rules depth 12
limit_event_fields-Fq _ n h = absurd (omega arith)

pub quota_event_fields-Fq :
    (parts : List Bytes) → length parts ≡ 7 → All Short parts → Fq (quota_event_fields parts)
unfolding quota_event_fields
quota_event_fields-Fq (a ∷ b ∷ c ∷ d ∷ e ∷ f ∷ g ∷ []) n h = search field_rules depth 12
quota_event_fields-Fq _ n h = absurd (omega arith)

pub hello_fields-Fq :
    (parts : List Bytes) → length parts ≡ 4 → All Short parts → Fq (hello_fields parts)
unfolding hello_fields is_fq_error
hello_fields-Fq (a ∷ b ∷ c ∷ d ∷ []) n h = search field_rules depth 12
hello_fields-Fq _ n h = absurd (omega arith)

split_response-AtMost :
    (payload tag body : Bytes)
    → split_response payload ≡ ok (tag, body)
    → AtMost (length payload) body
unfolding split_response
split_response-AtMost payload tag body e = ground (arith, partition-AtMost resp_delimiter payload)

split_response-Fq : (payload : Bytes) → Fq (split_response payload)
unfolding split_response is_fq_error
split_response-Fq payload = record { at = λ e h. ground arith }

protocol_error-Fq : (code : ℕ) (message : Bytes) → is_fq_error (protocol_error code message) ≡ true
unfolding protocol_error is_fq_error
protocol_error-Fq code message = ground arith

parse_error-Fq : (body : Bytes) → Short body → Fq (parse_error body)
unfolding parse_error is_fq_error
parse_error-Fq body h =
    RaisesOnly-bind (delimited (partition resp_delimiter body)) _
      (record { at = λ e k. ground arith })
      λ (code_field, message) e.
        RaisesOnly-bind (parse_uint code_field) _
          (parse_uint-Fq code_field (ground (arith, partition-AtMost resp_delimiter body)))
          λ code _. search raises_rules

-- The exception that an error response stands for is raised, or one that reading it raises.
parsed-is_fq_error : (body : Bytes) (e : Exn) → parse_error body ≡ ok e → is_fq_error e ≡ true
unfolding parse_error
parsed-is_fq_error body e h =
    let (parts, _, rest) = bind-eq-ok (delimited (partition resp_delimiter body)) _ h in
    let (code, _, rest') = bind-eq-ok (parse_uint parts.0) _ rest in
    ground (arith, protocol_error-Fq code (decode parts.1))

raise_parsed-Fq :
    (r : Result Exn)
    → Fq r
    → ((e : Exn) → r ≡ ok e → is_fq_error e ≡ true)
    → Fq {A = Bytes} (raise_parsed r)
raise_parsed-Fq (ok e) h k = record { at = λ e' q. ground (arith, k e) }
raise_parsed-Fq (raise e) h k = record { at = λ e' q. ground (arith, h.at e) }

raise_parsed-ne-ok : {A : Type 0} (r : Result Exn) (a : A) → raise_parsed r ≢ ok a
raise_parsed-ne-ok (ok e) a = λ h. cc
raise_parsed-ne-ok (raise e) a = λ h. cc

pub ok_data-Fq : (payload : Bytes) → Short payload → Fq (ok_data payload)
unfolding ok_data is_fq_error
ok_data-Fq payload h =
    RaisesOnly-bind (split_response payload) _ (split_response-Fq payload) λ (tag, body) e.
      let short : Short body = omega (arith, split_response-AtMost payload tag body e, h) in
      RaisesOnly-if (str_eq tag tag_ok) _ _ (λ _. RaisesOnly-ok body)
        λ _.
          RaisesOnly-if (str_eq tag tag_err) _ _
            (λ _.
              raise_parsed-Fq (parse_error body) (parse_error-Fq body short)
                (parsed-is_fq_error body))
            λ _. search raises_rules

-- The body of an accepted response is no longer than the response.
ok_data-AtMost : (payload body : Bytes) → ok_data payload ≡ ok body → AtMost (length payload) body
unfolding ok_data
ok_data-AtMost payload body e =
    let (parts, split, rest) = bind-eq-ok (split_response payload) _ e in
    ground (
      arith,
      raise_parsed-ne-ok (parse_error parts.1) body,
      split_response-AtMost payload parts.0 parts.1,
    )

pub ok_data-Short : (payload body : Bytes) → Short payload → ok_data payload ≡ ok body → Short body
ok_data-Short payload body h e = omega (arith, ok_data-AtMost payload body e, h)

parts-Short : (body : Bytes) → Short body → All Short (split field_delimiter body)
parts-Short body h =
    All-AtMost-mono (length body) max_str_digits _ h (split-AtMost field_delimiter body)

fields-parts :
    (body : Bytes) (n : ℕ) (parts : List Bytes)
    → Short body
    → fields body n ≡ ok parts
    → (length parts ≡ n) × All Short parts
unfolding fields
fields-parts body n parts h e = ground (arith, parts-Short body h)

fields-Fq : (body : Bytes) (n : ℕ) → Fq (fields body n)
unfolding fields is_fq_error
fields-Fq body n = record { at = λ e h. ground arith }

-- A decoder that reads a fixed number of fields.
pub fielded-Fq :
    {A : Type 0} (n : ℕ) (read : List Bytes → Result A) (payload : Bytes)
    → ((parts : List Bytes) → length parts ≡ n → All Short parts → Fq (read parts))
    → Short payload
    → Fq (do body ← ok_data payload; parts ← fields body n; read parts)
fielded-Fq n read payload reads h =
    RaisesOnly-bind (ok_data payload) _ (ok_data-Fq payload h) λ body e.
      RaisesOnly-bind (fields body n) _ (fields-Fq body n) λ parts e'.
        let (count, short) = fields-parts body n parts (ok_data-Short payload body h e) e' in
        reads parts count short

-- A decoder that reads as many fields as there are.
pub split-Fq :
    {A : Type 0} (read : List Bytes → Result A) (payload : Bytes)
    → ((parts : List Bytes) → parts ≢ [] → All Short parts → Fq (read parts))
    → Short payload
    → Fq (do body ← ok_data payload; read (split field_delimiter body))
split-Fq read payload reads h = RaisesOnly-bind (ok_data payload) _ (ok_data-Fq payload h) λ body e.
    reads _ (split-ne-nil field_delimiter body) (parts-Short body (ok_data-Short payload body h e))
