-- ===== src/Frame/Names.antt =====
-- Wire names of the error codes of backend/wealdrelay/src/frame.rs.
use mathlib.Core.Option
use wealdrelay.Base.{
  ℕ, ◌≡◌, refl, ap, sym, ◌∙◌, Option, none, some, List, [], ◌∷◌, bytes_eq, if◌then◌else◌,
}
use wealdrelay.Frame.Code.{
  ErrorCode, class_str, class, code_str, qualified, all_codes, backpressure, lock_timeout, failover,
  push_backpressure, malformed_header, noncanonical_cbor, hash_mismatch, envelope_too_large,
  unknown_required_field, push_handle_malformed, plaintext_refused, writer_not_in_access_set,
  group_unknown, service_read_only, group_frozen, push_not_configured, wrap_not_newer,
  storage_exhausted, log_budget_exhausted, rate_limited, seats_exhausted, group_ingress_limited,
  push_registration_rate, protocol_unsupported, below_client_floor,
}

-- The first of the codes with this qualified name.
named : List ℕ → List ErrorCode → Option ErrorCode
unfolding qualified
named name [] = none
named name (c ∷ cs) = if bytes_eq (qualified c) name then some c else named name cs

named-qualified : (c : ErrorCode) → named (qualified c) all_codes ≡ some c
unfolding named qualified class_str class code_str all_codes
named-qualified backpressure = refl
named-qualified lock_timeout = refl
named-qualified failover = refl
named-qualified push_backpressure = refl
named-qualified malformed_header = refl
named-qualified noncanonical_cbor = refl
named-qualified hash_mismatch = refl
named-qualified envelope_too_large = refl
named-qualified unknown_required_field = refl
named-qualified push_handle_malformed = refl
named-qualified plaintext_refused = refl
named-qualified writer_not_in_access_set = refl
named-qualified group_unknown = refl
named-qualified service_read_only = refl
named-qualified group_frozen = refl
named-qualified push_not_configured = refl
named-qualified wrap_not_newer = refl
named-qualified storage_exhausted = refl
named-qualified log_budget_exhausted = refl
named-qualified rate_limited = refl
named-qualified seats_exhausted = refl
named-qualified group_ingress_limited = refl
named-qualified push_registration_rate = refl
named-qualified protocol_unsupported = refl
named-qualified below_client_floor = refl

-- Error codes with the same qualified wire name are the same code.
pub qualified-injective : (a b : ErrorCode) → qualified a ≡ qualified b → a ≡ b
qualified-injective a b e =
    ap (λ o. Option.get_or o a)
      (sym (named-qualified a) ∙ (ap (λ n. named n all_codes) e ∙ named-qualified b))
