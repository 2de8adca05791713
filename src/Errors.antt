-- ===== src/Errors.antt =====
-- fq/errors.py: the exception classes, the error codes, and the choice of a class by range.
-- A function that may raise returns a `Result`. Of an exception's data the model keeps what a
-- program can act on: its class, and the code and message of a protocol error.
pub mod Ranges
pub mod Raises
use fq_client_py.Prelude.{
  ℕ, ◌/◌, Bool, true, false, List, [], ◌∷◌, Str, ◌==◌, if◌then◌else◌, ◌≡◌, refl, ◌⊎◌, inl, inr,
}

-- class ErrorCode(IntEnum)
pub data ErrorCode : Type 0 where
  invalid_symbol invalid_command invalid_arguments invalid_arguments_count : ErrorCode
  message_size_exceeds_maximum handshake_required unsupported_protocol_version : ErrorCode
  protocol_version_already_negotiated : ErrorCode
  key_cannot_be_empty key_length_exceeds_maximum batch_is_not_number : ErrorCode
  invalid_batch_size limit_is_not_number invalid_limit invalid_rate_limit_algorithm : ErrorCode
  invalid_scan_count invalid_scan_cursor value_overflow : ErrorCode
  not_authenticated permission_denied authentication_failed : ErrorCode
  too_many_authentication_failures : ErrorCode
  quota_not_found quota_limit_mismatch quota_already_acquired_different_size : ErrorCode
  quota_is_not_empty quota_limit_below_used_amount quota_ownership_mismatch : ErrorCode
  quota_policy_mismatch : ErrorCode
  scan_index_disabled inspect_not_available inspect_report_too_large : ErrorCode
  max_message_size_too_small_for_chunk unsupported_compression read_only_replica : ErrorCode
  internal internal_configuration : ErrorCode

-- The integer that a member of the enum is.
unfoldable pub value : ErrorCode → ℕ
value invalid_symbol = 1000
value invalid_command = 1001
value invalid_arguments = 1002
value invalid_arguments_count = 1003
value message_size_exceeds_maximum = 1004
value handshake_required = 1010
value unsupported_protocol_version = 1011
value protocol_version_already_negotiated = 1012
value key_cannot_be_empty = 2000
value key_length_exceeds_maximum = 2001
value batch_is_not_number = 2002
value invalid_batch_size = 2003
value limit_is_not_number = 2004
value invalid_limit = 2005
value invalid_rate_limit_algorithm = 2006
value invalid_scan_count = 2007
value invalid_scan_cursor = 2008
value value_overflow = 2009
value not_authenticated = 3000
value permission_denied = 3001
value authentication_failed = 3002
value too_many_authentication_failures = 3003
value quota_not_found = 4000
value quota_limit_mismatch = 4001
value quota_already_acquired_different_size = 4002
value quota_is_not_empty = 4003
value quota_limit_below_used_amount = 4004
value quota_ownership_mismatch = 4005
value quota_policy_mismatch = 4006
value scan_index_disabled = 5000
value inspect_not_available = 5001
value inspect_report_too_large = 5002
value max_message_size_too_small_for_chunk = 5003
value unsupported_compression = 5004
value read_only_replica = 5005
value internal = 9000
value internal_configuration = 9001

-- ProtocolError and its subclasses
pub data ProtocolClass : Type 0 where
  protocol_base request_error argument_error auth_error authentication_failed_error : ProtocolClass
  quota_error instance_state_error internal_error : ProtocolClass

-- The exceptions: those of the module first, then those of Python that the code lets through.
pub data Exn : Type 0 where
  fq_connection_error fq_timeout_error corrupted_response_error pool_closed_error : Exn
  shard_index_error value_out_of_range_error : Exn
  protocol : ProtocolClass → ℕ → Str → Exn
  value_error unicode_encode_error overflow_error zero_division_error index_error : Exn
  recursion_error queue_empty : Exn
  -- no exception: the end, for the model, of a call that waits for ever
  never_returns : Exn

-- What `except FQConnectionError` catches: FQTimeoutError is a subclass.
unfoldable pub is_connection_error : Exn → Bool
is_connection_error fq_connection_error = true
is_connection_error fq_timeout_error = true
is_connection_error _ = false

-- What `except FQError` catches.
unfoldable pub is_fq_error : Exn → Bool
is_fq_error value_error = false
is_fq_error unicode_encode_error = false
is_fq_error overflow_error = false
is_fq_error zero_division_error = false
is_fq_error index_error = false
is_fq_error recursion_error = false
is_fq_error queue_empty = false
is_fq_error never_returns = false
is_fq_error _ = true

-- What `except ValueError` catches.
unfoldable pub is_value_error : Exn → Bool
is_value_error value_out_of_range_error = true
is_value_error value_error = true
is_value_error unicode_encode_error = true
is_value_error _ = false

pub data Result {ℓ} (T : Type ℓ) : Type ℓ where
  ok : T → Result T
  raise : Exn → Result T

module _ {ℓ κ} {T : Type ℓ} {U : Type κ} where
  infixl 5 ◌>>=◌ ◌>>◌
  -- A call and the rest of the block, which an exception skips.
  abbrev pub ◌>>=◌ : Result T → (T → Result U) → Result U
  raise x >>= rest = raise x
  ok t >>= rest = rest t

  abbrev pub ◌>>◌ : Result T → Result U → Result U
  call >> rest = call >>= λ t. rest

  -- A block that returns has returned at each of its steps.
  pub bind-eq-ok :
      (call : Result T) (rest : T → Result U) {u : U}
      → (call >>= rest) ≡ ok u
      → (t : T) × (call ≡ ok t) × (rest t ≡ ok u)
  bind-eq-ok (raise x) rest returns = cc
  bind-eq-ok (ok t) rest returns = (t, refl, returns)

-- To split on whether a call returns, and keep the equation.
pub Result-cases {ℓ} :
    {T : Type ℓ} (r : Result T) → ((t : T) × (r ≡ ok t)) ⊎ ((x : Exn) × (r ≡ raise x))
Result-cases (raise x) = inr (x, refl)
Result-cases (ok t) = inl (t, refl)

-- `_RANGES`
abbrev pub ranges : List (ℕ × ProtocolClass)
ranges =
    (1, request_error)
    ∷ (2, argument_error)
    ∷ (3, auth_error)
    ∷ (4, quota_error)
    ∷ (5, instance_state_error)
    ∷ (9, internal_error)
    ∷ []

-- `_RANGES.get(key, default)`
abbrev pub range_get : ℕ → ProtocolClass → List (ℕ × ProtocolClass) → ProtocolClass
range_get key default [] = default
range_get key default ((k, c) ∷ rest) = if k == key then c else range_get key default rest

unfoldable pub protocol_error : ℕ → Str → Exn
unfolding value
protocol_error code message =
    if code == value authentication_failed
    then protocol authentication_failed_error code message
    else protocol (range_get (code / 1000) protocol_base ranges) code message
