-- ===== src/Frame/Code.antt =====
-- The error taxonomy of backend/wealdrelay/src/frame.rs. Wire names are lists of ASCII bytes.
use wealdrelay.Base.{ℕ, Bool, true, false, Option, none, some, List, [], ◌∷◌, ◌++◌}

pub data ErrorClass : Type 0 where
  retry reject denied quota version limit : ErrorClass

pub data ErrorCode : Type 0 where
  backpressure lock_timeout failover push_backpressure : ErrorCode
  malformed_header noncanonical_cbor hash_mismatch envelope_too_large : ErrorCode
  unknown_required_field push_handle_malformed plaintext_refused writer_not_in_access_set :
      ErrorCode
  group_unknown service_read_only group_frozen push_not_configured : ErrorCode
  wrap_not_newer storage_exhausted log_budget_exhausted rate_limited : ErrorCode
  seats_exhausted group_ingress_limited push_registration_rate protocol_unsupported : ErrorCode
  below_client_floor : ErrorCode

-- `ErrorClass::as_str`
unfoldable pub class_str : ErrorClass → List ℕ
class_str retry = b'r' ∷ b'e' ∷ b't' ∷ b'r' ∷ b'y' ∷ []
class_str reject = b'r' ∷ b'e' ∷ b'j' ∷ b'e' ∷ b'c' ∷ b't' ∷ []
class_str denied = b'd' ∷ b'e' ∷ b'n' ∷ b'i' ∷ b'e' ∷ b'd' ∷ []
class_str quota = b'q' ∷ b'u' ∷ b'o' ∷ b't' ∷ b'a' ∷ []
class_str version = b'v' ∷ b'e' ∷ b'r' ∷ b's' ∷ b'i' ∷ b'o' ∷ b'n' ∷ []
class_str limit = b'l' ∷ b'i' ∷ b'm' ∷ b'i' ∷ b't' ∷ []

unfoldable pub is_retryable : ErrorClass → Bool
is_retryable retry = true
is_retryable quota = true
is_retryable limit = true
is_retryable _ = false

-- `ErrorCode::class`
unfoldable pub class : ErrorCode → ErrorClass
class backpressure = retry
class lock_timeout = retry
class failover = retry
class push_backpressure = retry
class malformed_header = reject
class noncanonical_cbor = reject
class hash_mismatch = reject
class envelope_too_large = reject
class unknown_required_field = reject
class push_handle_malformed = reject
class plaintext_refused = denied
class writer_not_in_access_set = denied
class group_unknown = denied
class service_read_only = denied
class group_frozen = denied
class push_not_configured = denied
class wrap_not_newer = denied
class storage_exhausted = quota
class log_budget_exhausted = quota
class rate_limited = quota
class seats_exhausted = quota
class group_ingress_limited = quota
class push_registration_rate = limit
class protocol_unsupported = version
class below_client_floor = version

-- `ErrorCode::as_str`
unfoldable pub code_str : ErrorCode → List ℕ
code_str backpressure =
    b'b' ∷ b'a' ∷ b'c' ∷ b'k' ∷ b'p' ∷ b'r' ∷ b'e' ∷ b's' ∷ b's' ∷ b'u' ∷ b'r' ∷ b'e' ∷ []
code_str lock_timeout =
    b'l' ∷ b'o' ∷ b'c' ∷ b'k' ∷ b'_' ∷ b't' ∷ b'i' ∷ b'm' ∷ b'e' ∷ b'o' ∷ b'u' ∷ b't' ∷ []
code_str failover = b'f' ∷ b'a' ∷ b'i' ∷ b'l' ∷ b'o' ∷ b'v' ∷ b'e' ∷ b'r' ∷ []
code_str push_backpressure =
    b'p' ∷ b'u' ∷ b's' ∷ b'h' ∷ b'_' ∷ b'b' ∷ b'a' ∷ b'c' ∷ b'k' ∷ b'p' ∷ b'r' ∷ b'e' ∷ b's' ∷ b's'
    ∷ b'u' ∷ b'r' ∷ b'e' ∷ []
code_str malformed_header =
    b'm' ∷ b'a' ∷ b'l' ∷ b'f' ∷ b'o' ∷ b'r' ∷ b'm' ∷ b'e' ∷ b'd' ∷ b'_' ∷ b'h' ∷ b'e' ∷ b'a' ∷ b'd'
    ∷ b'e' ∷ b'r' ∷ []
code_str noncanonical_cbor =
    b'n' ∷ b'o' ∷ b'n' ∷ b'c' ∷ b'a' ∷ b'n' ∷ b'o' ∷ b'n' ∷ b'i' ∷ b'c' ∷ b'a' ∷ b'l' ∷ b'_' ∷ b'c'
    ∷ b'b' ∷ b'o' ∷ b'r' ∷ []
code_str hash_mismatch =
    b'h' ∷ b'a' ∷ b's' ∷ b'h' ∷ b'_' ∷ b'm' ∷ b'i' ∷ b's' ∷ b'm' ∷ b'a' ∷ b't' ∷ b'c' ∷ b'h' ∷ []
code_str envelope_too_large =
    b'e' ∷ b'n' ∷ b'v' ∷ b'e' ∷ b'l' ∷ b'o' ∷ b'p' ∷ b'e' ∷ b'_' ∷ b't' ∷ b'o' ∷ b'o' ∷ b'_' ∷ b'l'
    ∷ b'a' ∷ b'r' ∷ b'g' ∷ b'e' ∷ []
code_str unknown_required_field =
    b'u' ∷ b'n' ∷ b'k' ∷ b'n' ∷ b'o' ∷ b'w' ∷ b'n' ∷ b'_' ∷ b'r' ∷ b'e' ∷ b'q' ∷ b'u' ∷ b'i' ∷ b'r'
    ∷ b'e' ∷ b'd' ∷ b'_' ∷ b'f' ∷ b'i' ∷ b'e' ∷ b'l' ∷ b'd' ∷ []
code_str push_handle_malformed =
    b'p' ∷ b'u' ∷ b's' ∷ b'h' ∷ b'_' ∷ b'h' ∷ b'a' ∷ b'n' ∷ b'd' ∷ b'l' ∷ b'e' ∷ b'_' ∷ b'm' ∷ b'a'
    ∷ b'l' ∷ b'f' ∷ b'o' ∷ b'r' ∷ b'm' ∷ b'e' ∷ b'd' ∷ []
code_str plaintext_refused =
    b'p' ∷ b'l' ∷ b'a' ∷ b'i' ∷ b'n' ∷ b't' ∷ b'e' ∷ b'x' ∷ b't' ∷ b'_' ∷ b'r' ∷ b'e' ∷ b'f' ∷ b'u'
    ∷ b's' ∷ b'e' ∷ b'd' ∷ []
code_str writer_not_in_access_set =
    b'w' ∷ b'r' ∷ b'i' ∷ b't' ∷ b'e' ∷ b'r' ∷ b'_' ∷ b'n' ∷ b'o' ∷ b't' ∷ b'_' ∷ b'i' ∷ b'n' ∷ b'_'
    ∷ b'a' ∷ b'c' ∷ b'c' ∷ b'e' ∷ b's' ∷ b's' ∷ b'_' ∷ b's' ∷ b'e' ∷ b't' ∷ []
code_str group_unknown =
    b'g' ∷ b'r' ∷ b'o' ∷ b'u' ∷ b'p' ∷ b'_' ∷ b'u' ∷ b'n' ∷ b'k' ∷ b'n' ∷ b'o' ∷ b'w' ∷ b'n' ∷ []
code_str service_read_only =
    b's' ∷ b'e' ∷ b'r' ∷ b'v' ∷ b'i' ∷ b'c' ∷ b'e' ∷ b'_' ∷ b'r' ∷ b'e' ∷ b'a' ∷ b'd' ∷ b'_' ∷ b'o'
    ∷ b'n' ∷ b'l' ∷ b'y' ∷ []
code_str group_frozen =
    b'g' ∷ b'r' ∷ b'o' ∷ b'u' ∷ b'p' ∷ b'_' ∷ b'f' ∷ b'r' ∷ b'o' ∷ b'z' ∷ b'e' ∷ b'n' ∷ []
code_str push_not_configured =
    b'p' ∷ b'u' ∷ b's' ∷ b'h' ∷ b'_' ∷ b'n' ∷ b'o' ∷ b't' ∷ b'_' ∷ b'c' ∷ b'o' ∷ b'n' ∷ b'f' ∷ b'i'
    ∷ b'g' ∷ b'u' ∷ b'r' ∷ b'e' ∷ b'd' ∷ []
code_str wrap_not_newer =
    b'w' ∷ b'r' ∷ b'a' ∷ b'p' ∷ b'_' ∷ b'n' ∷ b'o' ∷ b't' ∷ b'_' ∷ b'n' ∷ b'e' ∷ b'w' ∷ b'e' ∷ b'r'
    ∷ []
code_str storage_exhausted =
    b's' ∷ b't' ∷ b'o' ∷ b'r' ∷ b'a' ∷ b'g' ∷ b'e' ∷ b'_' ∷ b'e' ∷ b'x' ∷ b'h' ∷ b'a' ∷ b'u' ∷ b's'
    ∷ b't' ∷ b'e' ∷ b'd' ∷ []
code_str log_budget_exhausted =
    b'l' ∷ b'o' ∷ b'g' ∷ b'_' ∷ b'b' ∷ b'u' ∷ b'd' ∷ b'g' ∷ b'e' ∷ b't' ∷ b'_' ∷ b'e' ∷ b'x' ∷ b'h'
    ∷ b'a' ∷ b'u' ∷ b's' ∷ b't' ∷ b'e' ∷ b'd' ∷ []
code_str rate_limited =
    b'r' ∷ b'a' ∷ b't' ∷ b'e' ∷ b'_' ∷ b'l' ∷ b'i' ∷ b'm' ∷ b'i' ∷ b't' ∷ b'e' ∷ b'd' ∷ []
code_str seats_exhausted =
    b's' ∷ b'e' ∷ b'a' ∷ b't' ∷ b's' ∷ b'_' ∷ b'e' ∷ b'x' ∷ b'h' ∷ b'a' ∷ b'u' ∷ b's' ∷ b't' ∷ b'e'
    ∷ b'd' ∷ []
code_str group_ingress_limited =
    b'g' ∷ b'r' ∷ b'o' ∷ b'u' ∷ b'p' ∷ b'_' ∷ b'i' ∷ b'n' ∷ b'g' ∷ b'r' ∷ b'e' ∷ b's' ∷ b's' ∷ b'_'
    ∷ b'l' ∷ b'i' ∷ b'm' ∷ b'i' ∷ b't' ∷ b'e' ∷ b'd' ∷ []
code_str push_registration_rate =
    b'p' ∷ b'u' ∷ b's' ∷ b'h' ∷ b'_' ∷ b'r' ∷ b'e' ∷ b'g' ∷ b'i' ∷ b's' ∷ b't' ∷ b'r' ∷ b'a' ∷ b't'
    ∷ b'i' ∷ b'o' ∷ b'n' ∷ b'_' ∷ b'r' ∷ b'a' ∷ b't' ∷ b'e' ∷ []
code_str protocol_unsupported =
    b'p' ∷ b'r' ∷ b'o' ∷ b't' ∷ b'o' ∷ b'c' ∷ b'o' ∷ b'l' ∷ b'_' ∷ b'u' ∷ b'n' ∷ b's' ∷ b'u' ∷ b'p'
    ∷ b'p' ∷ b'o' ∷ b'r' ∷ b't' ∷ b'e' ∷ b'd' ∷ []
code_str below_client_floor =
    b'b' ∷ b'e' ∷ b'l' ∷ b'o' ∷ b'w' ∷ b'_' ∷ b'c' ∷ b'l' ∷ b'i' ∷ b'e' ∷ b'n' ∷ b't' ∷ b'_' ∷ b'f'
    ∷ b'l' ∷ b'o' ∷ b'o' ∷ b'r' ∷ []

unfoldable pub qualified : ErrorCode → List ℕ
unfolding class class_str code_str
qualified c = class_str (class c) ++ (b'/' ∷ code_str c)

-- `ErrorCode::ALL`
unfoldable pub all_codes : List ErrorCode
all_codes =
    backpressure ∷ lock_timeout ∷ failover ∷ push_backpressure ∷ malformed_header
    ∷ noncanonical_cbor ∷ hash_mismatch ∷ envelope_too_large ∷ unknown_required_field
    ∷ push_handle_malformed ∷ plaintext_refused ∷ writer_not_in_access_set ∷ group_unknown
    ∷ service_read_only ∷ group_frozen ∷ push_not_configured ∷ wrap_not_newer ∷ storage_exhausted
    ∷ log_budget_exhausted ∷ rate_limited ∷ seats_exhausted ∷ group_ingress_limited
    ∷ push_registration_rate ∷ protocol_unsupported ∷ below_client_floor ∷ []

pub record FrameError : Type 0 where
  pub code : ErrorCode
  pub retry_after : Option ℕ
  pub detail : Option (List ℕ)

-- `FrameError::new` and its two builders.
unfoldable pub new_error : ErrorCode → FrameError
new_error code = record { code = code; retry_after = none; detail = none }

unfoldable pub with_retry_after : ℕ → FrameError → FrameError
with_retry_after seconds e = record e { retry_after = some seconds }

unfoldable pub with_detail : List ℕ → FrameError → FrameError
with_detail detail e = record e { detail = some detail }
