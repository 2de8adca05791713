-- ===== src/Errors/Ranges.antt =====
-- The class that `protocol_error` of fq/errors.py picks, for the codes of the protocol and for
-- codes that a newer server may add.
use fq_client_py.Prelude.{ℕ, ◌≤◌, ◌<◌, ◌≡◌, ◌≢◌, ◌↔◌, ◌⊎◌, Str, arith}
use fq_client_py.Errors.{
  protocol, protocol_error, ProtocolClass, protocol_base, request_error, argument_error, auth_error,
  authentication_failed_error, quota_error, instance_state_error, internal_error,
}

-- The range of codes that the docstring of each class names.
abbrev pub InRange : ProtocolClass → ℕ → Type 0
InRange request_error code = (1000 ≤ code) × (code < 2000)
InRange argument_error code = (2000 ≤ code) × (code < 3000)
InRange auth_error code = (3000 ≤ code) × (code < 4000) × (code ≢ 3002)
InRange authentication_failed_error code = code ≡ 3002
InRange quota_error code = (4000 ≤ code) × (code < 5000)
InRange instance_state_error code = (5000 ≤ code) × (code < 6000)
InRange internal_error code = (9000 ≤ code) × (code < 10000)
InRange protocol_base code = (code < 1000) ⊎ ((6000 ≤ code) × (code < 9000)) ⊎ (10000 ≤ code)

-- A code gives an exception of a class exactly when it lies in the range of that class, and the
-- exception carries the code and the message: 3002 alone is a rejected token, and a code of no
-- range gives the base class.
pub protocol_error_by_range :
    (c : ProtocolClass) (code : ℕ) (message : Str)
    → (protocol_error code message ≡ protocol c code message) ↔ InRange c code
unfolding protocol_error
protocol_error_by_range request_error code message = ground arith
protocol_error_by_range c code message = ground arith
