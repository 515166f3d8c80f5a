-- ===== src/Exceptions.antt =====
-- The exceptions that the program raises or catches: backend/app/providers/triage/base.py,
-- backend/app/services/errors.py, and those of Python and its libraries by which it branches.
-- A function that may raise returns a `Result`. Messages are modelled where a response shows them.
use civic_pulse_24i3089_24i.Prelude.{ℕ, Bool, true, false, Option, none, some}
use civic_pulse_24i3089_24i.Text.{Str, codes}
use civic_pulse_24i3089_24i.Domain.{Status}

pub data Exn : Type 0 where
  triage_timeout triage_rate_limited triage_upstream_error : Exn
  triage_bad_request triage_malformed_output : Exn
  not_found : Str → Exn
  invalid_transition : Status → Status → Exn
  rate_limit_exceeded : ℕ → Exn
  validation_error key_error type_error json_decode_error assertion_error : Exn
  -- any other class, by its name
  other_error : Str → Exn

-- `type(exc).__name__`
unfoldable pub class_name : Exn → Str
class_name triage_timeout = codes "TriageTimeout"
class_name triage_rate_limited = codes "TriageRateLimited"
class_name triage_upstream_error = codes "TriageUpstreamError"
class_name triage_bad_request = codes "TriageBadRequest"
class_name triage_malformed_output = codes "TriageMalformedOutput"
class_name (not_found what) = codes "NotFoundError"
class_name (invalid_transition current attempted) = codes "InvalidTransitionError"
class_name (rate_limit_exceeded retry_after) = codes "RateLimitExceededError"
class_name validation_error = codes "ValidationError"
class_name key_error = codes "KeyError"
class_name type_error = codes "TypeError"
class_name json_decode_error = codes "JSONDecodeError"
class_name assertion_error = codes "AssertionError"
class_name (other_error name) = name

-- `except RETRYABLE`
abbrev pub is_retryable : Exn → Bool
is_retryable triage_timeout = true
is_retryable triage_rate_limited = true
is_retryable triage_upstream_error = true
is_retryable _ = false

-- `except (KeyError, ValueError)`: pydantic's and json's errors are value errors.
abbrev pub is_key_or_value_error : Exn → Bool
is_key_or_value_error validation_error = true
is_key_or_value_error key_error = true
is_key_or_value_error json_decode_error = true
is_key_or_value_error _ = false

pub data Result {ℓ} (A : Type ℓ) : Type ℓ where
  ok : A → Result A
  err : Exn → Result A

infixl 5 ◌>>=◌
abbrev pub ◌>>=◌ {ℓ κ} : {A : Type ℓ} {B : Type κ} → Result A → (A → Result B) → Result B
ok a >>= f = f a
err e >>= f = err e

abbrev pub of_option {ℓ} : {A : Type ℓ} → Exn → Option A → Result A
of_option e none = err e
of_option e (some a) = ok a
