-- ===== src/Frame/Forms.antt =====
-- The bodies of KEYS, WAKE and ERROR in backend/wealdrelay/src/frame.rs, read back.
use wealdrelay.Base.{
  ℕ, ◌^◌, ◌<◌, ◌≡◌, refl, ap, arith, Option, none, some, List, [], ◌∷◌, ltb, ◌==◌, if◌then◌else◌,
  length, map, ok_or,
}
use mathlib.Core.Option
use wealdrelay.Cbor.Encode
use wealdrelay.Cbor.Typed.{u8, u32}
use wealdrelay.Cbor.Compose.{
  Back, Back-pure, Back-lift, Back-convert, Back-bind, Back-map, Back-narrowed, Back-bytes,
  Back-bytes_of, Back-array, Back-counted, length-uint-pos, length-bytes-pos, length-array-pos,
  length-map, bytes-pos,
}
use wealdrelay.Frame.Code.{ErrorCode, FrameError, class, class_str, code_str, all_codes}
use wealdrelay.Frame.Tag.{cbor, bad_field}
use wealdrelay.Frame.Body.{
  KeysBody, publish, published, fetch, bundles, no_keys, error, keys, body_fields, keys_fields,
  keys_form,
}
use wealdrelay.Frame.Decode.{read_keys_body, read_keys, read_error, find_code}
use wealdrelay.Frame.Fits.{IsText, FitsRetry, FitsDetail, FitsKeys}
use wealdrelay.Frame.Code.{
  backpressure, lock_timeout, failover, push_backpressure, malformed_header, noncanonical_cbor,
  hash_mismatch, envelope_too_large, unknown_required_field, push_handle_malformed,
  plaintext_refused, writer_not_in_access_set, group_unknown, service_read_only, group_frozen,
  push_not_configured, wrap_not_newer, storage_exhausted, log_budget_exhausted, rate_limited,
  seats_exhausted, group_ingress_limited, push_registration_rate, protocol_unsupported,
  below_client_floor,
}
use wealdrelay.Frame.Bodies.{read_packages-Back}

read_keys_body-Back :
    (body : KeysBody)
    → FitsKeys body
    → Back (read_keys_body (keys_form body)) body (Encode.array (keys_fields body))
unfolding read_keys_body keys_form keys_fields Encode.concat u8 u32
read_keys_body-Back (publish packages) (count, each) =
    let items = map Encode.bytes packages in
    let n : length items ≡ length packages = length-map Encode.bytes packages in
    Back-counted cbor _ items (omega (arith, n, count)) (bytes-pos packages)
      (rw n (Back-map publish (read_packages-Back packages each)))
read_keys_body-Back (bundles packages) (count, each) =
    let items = map Encode.bytes packages in
    let n : length items ≡ length packages = length-map Encode.bytes packages in
    Back-counted cbor _ items (omega (arith, n, count)) (bytes-pos packages)
      (rw n (Back-map bundles (read_packages-Back packages each)))
read_keys_body-Back (published remaining) h =
    Back-array cbor (Encode.uint remaining ∷ []) (omega arith)
      (omega (arith, length-uint-pos remaining))
      (Back-bind _ (Back-convert cbor (Back-narrowed _ remaining (omega (arith, h)) h))
        (Back-pure (published remaining)))
read_keys_body-Back (fetch device count) (hd, hc) =
    Back-array cbor (Encode.bytes device ∷ Encode.uint count ∷ []) (omega arith)
      (omega (arith, length-bytes-pos device, length-uint-pos count))
      (Back-bind _ (Back-convert cbor (Back-bytes_of 32 device (omega arith) hd)) (
        Back-bind _ (Back-convert cbor (Back-narrowed _ count (omega (arith, hc)) hc))
          (Back-pure (fetch device count))))
read_keys_body-Back no_keys h = Back-array cbor [] (omega arith) tt (Back-pure no_keys)

keys_form-lt : (body : KeysBody) → keys_form body < 2 ^ 8
unfolding keys_form
keys_form-lt (publish packages) = omega arith
keys_form-lt (bundles packages) = omega arith
keys_form-lt (published remaining) = omega arith
keys_form-lt (fetch device count) = omega arith
keys_form-lt no_keys = omega arith

pub read_keys-Back :
    (body : KeysBody)
    → FitsKeys body
    → Back read_keys (keys body) (Encode.array (body_fields (keys body)))
unfolding read_keys body_fields Encode.concat u8
read_keys-Back body h =
    let small = keys_form-lt body in
    Back-array cbor (Encode.uint (keys_form body) ∷ Encode.array (keys_fields body) ∷ [])
      (omega arith)
      (omega (arith, length-uint-pos (keys_form body), length-array-pos (keys_fields body)))
      (Back-bind _
        (Back-convert cbor (Back-narrowed _ (keys_form body) (omega (arith, small)) small))
        (Back-bind _ (read_keys_body-Back body h) (Back-pure (keys body))))

find_code-named : (c : ErrorCode) → find_code (class_str (class c)) (code_str c) all_codes ≡ some c
unfolding find_code class_str class code_str all_codes
find_code-named backpressure = refl
find_code-named lock_timeout = refl
find_code-named failover = refl
find_code-named push_backpressure = refl
find_code-named malformed_header = refl
find_code-named noncanonical_cbor = refl
find_code-named hash_mismatch = refl
find_code-named envelope_too_large = refl
find_code-named unknown_required_field = refl
find_code-named push_handle_malformed = refl
find_code-named plaintext_refused = refl
find_code-named writer_not_in_access_set = refl
find_code-named group_unknown = refl
find_code-named service_read_only = refl
find_code-named group_frozen = refl
find_code-named push_not_configured = refl
find_code-named wrap_not_newer = refl
find_code-named storage_exhausted = refl
find_code-named log_budget_exhausted = refl
find_code-named rate_limited = refl
find_code-named seats_exhausted = refl
find_code-named group_ingress_limited = refl
find_code-named push_registration_rate = refl
find_code-named protocol_unsupported = refl
find_code-named below_client_floor = refl

retry_back :
    (retry : Option ℕ)
    → FitsRetry retry
    → (Option.get_or retry 0 < 2 ^ 32)
      × ((if ltb 0 (Option.get_or retry 0) then some (Option.get_or retry 0) else none) ≡ retry)
retry_back none h = (omega arith, refl)
retry_back (some n) h = (omega (arith, h.1), ground (arith, h.0))

detail_back :
    (detail : Option (List ℕ))
    → FitsDetail detail
    → IsText (Option.get_or detail [])
      × ((if length (Option.get_or detail []) == 0 then none else some (Option.get_or detail []))
          ≡ detail)
detail_back none h = (omega arith, refl)
detail_back (some d) h = (omega (arith, h.1), ground (arith, h.0))

names-IsText : (c : ErrorCode) → IsText (class_str (class c)) × IsText (code_str c)
unfolding class_str class code_str
names-IsText backpressure = omega arith
names-IsText lock_timeout = omega arith
names-IsText failover = omega arith
names-IsText push_backpressure = omega arith
names-IsText malformed_header = omega arith
names-IsText noncanonical_cbor = omega arith
names-IsText hash_mismatch = omega arith
names-IsText envelope_too_large = omega arith
names-IsText unknown_required_field = omega arith
names-IsText push_handle_malformed = omega arith
names-IsText plaintext_refused = omega arith
names-IsText writer_not_in_access_set = omega arith
names-IsText group_unknown = omega arith
names-IsText service_read_only = omega arith
names-IsText group_frozen = omega arith
names-IsText push_not_configured = omega arith
names-IsText wrap_not_newer = omega arith
names-IsText storage_exhausted = omega arith
names-IsText log_budget_exhausted = omega arith
names-IsText rate_limited = omega arith
names-IsText seats_exhausted = omega arith
names-IsText group_ingress_limited = omega arith
names-IsText push_registration_rate = omega arith
names-IsText protocol_unsupported = omega arith
names-IsText below_client_floor = omega arith

pub read_error-Back :
    (e : FrameError)
    → FitsRetry e.retry_after × FitsDetail e.detail
    → Back read_error (error e) (Encode.array (body_fields (error e)))
unfolding read_error body_fields Encode.concat u32
read_error-Back e (hr, hd) =
    let class_name = class_str (class e.code) in
    let code_name = code_str e.code in
    let retry = Option.get_or e.retry_after 0 in
    let detail = Option.get_or e.detail [] in
    let (short, retry_same) = retry_back e.retry_after hr in
    let (fits, detail_same) = detail_back e.detail hd in
    let named = names-IsText e.code in
    Back-array cbor
      (Encode.bytes class_name
        ∷ Encode.bytes code_name
        ∷ Encode.uint retry
        ∷ Encode.bytes detail
        ∷ [])
      (omega arith)
      (omega (
        arith,
        length-bytes-pos class_name,
        length-bytes-pos code_name,
        length-uint-pos retry,
        length-bytes-pos detail,
      ))
      (Back-bind _ (Back-convert cbor (Back-bytes class_name named.0)) (
        Back-bind _ (Back-convert cbor (Back-bytes code_name named.1)) (
          Back-bind _ (Back-convert cbor (Back-narrowed _ retry (omega (arith, short)) short)) (
            Back-bind _ (Back-convert cbor (Back-bytes detail fits)) (
              Back-bind _
                (Back-lift (ap (λ o. ok_or o (bad_field "code")) (find_code-named e.code)))
                (rw retry_same (rw detail_same (Back-pure (error e)))))))))
