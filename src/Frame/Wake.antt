-- ===== src/Frame/Wake.antt =====
-- The body of WAKE in backend/wealdrelay/src/frame.rs, read back.
use wealdrelay.Base.{
  ℕ, ◌^◌, ◌≤◌, ◌<◌, ◌≡◌, arith, Bool, true, false, Option, List, [], ◌∷◌, ltb, ◌==◌, not, ◌||◌,
  length, IsByte, IsU64,
}
use wealdrelay.Cbor.Encode
use wealdrelay.Cbor.Typed.{u8}
use wealdrelay.Cbor.Utf8.{is_utf8}
use wealdrelay.Cbor.Compose.{
  Back, Back-pure, Back-convert, Back-bind, Back-uint, Back-narrowed, Back-bytes, Back-array,
  Back-text, Back-boolean, length-uint-pos, length-bytes-pos, length-array-pos, length-text-pos,
  length-boolean-pos,
}
use wealdrelay.Push.Category.{is_valid_mask}
use wealdrelay.Frame.Body.{
  WakeBody, register, registered, clear, cleared, query, capability, wake, body_fields, wake_fields,
  wake_form,
}
use wealdrelay.Frame.Tag.{max_wake_bytes, wake_shape}
use wealdrelay.Frame.Decode.{
  is_acceptable_register_url, read_register, read_capability, read_wake_body, read_wake,
  max_register_url_bytes, handle_bytes,
}
use wealdrelay.Frame.Fits.{FitsWake}

wake_form-lt : (body : WakeBody) → wake_form body < 2 ^ 8
unfolding wake_form
wake_form-lt (register handle categories expires_at) = omega arith
wake_form-lt (registered expires_at) = omega arith
wake_form-lt clear = omega arith
wake_form-lt cleared = omega arith
wake_form-lt query = omega arith
wake_form-lt (capability enabled url) = omega arith

read_register-Back :
    (handle : List ℕ) (categories expires_at : ℕ)
    → (length handle ≡ handle_bytes)
      × IsByte categories
      × (is_valid_mask categories ≡ true)
      × IsU64 expires_at
    → Back read_register
        (register handle categories expires_at)
        (Encode.array (wake_fields (register handle categories expires_at)))
unfolding read_register wake_fields Encode.concat u8
read_register-Back handle categories expires_at (hh, hc, hm, he) =
    let long : not (length handle == 16) ≡ false = ground (arith, hh) in
    Back-array (λ e. wake_shape e "register")
      (Encode.bytes handle ∷ Encode.uint categories ∷ Encode.uint expires_at ∷ []) (omega arith)
      (omega
        (arith, length-bytes-pos handle, length-uint-pos categories, length-uint-pos expires_at))
      (Back-bind _ (Back-convert _ (Back-bytes handle (omega (arith, hh)))) (
        rw long (
          Back-bind _ (Back-convert _ (Back-narrowed _ categories (omega (arith, hc)) hc)) (
            rw hm (
              Back-bind _ (Back-convert _ (Back-uint expires_at he))
                (Back-pure (register handle categories expires_at)))))))

module _ (parse_url : List ℕ → Option (List ℕ × Option (List ℕ))) where
  read_capability-Back :
      (enabled : Bool) (url : List ℕ)
      → (length url ≤ max_register_url_bytes)
        × (is_utf8 url ≡ true)
        × (is_acceptable_register_url parse_url url ≡ true)
      → Back
          (read_capability parse_url)
          (capability enabled url)
          (Encode.array (wake_fields (capability enabled url)))
  unfolding read_capability wake_fields Encode.concat
  read_capability-Back enabled url (short, utf8, allowed) =
      let fine : (ltb max_register_url_bytes (length url)
            || not (is_acceptable_register_url parse_url url))
          ≡ false =
        ground (arith, short, allowed) in
      Back-array (λ e. wake_shape e "capability") (Encode.boolean enabled ∷ Encode.text url ∷ [])
        (omega arith) (omega (arith, length-boolean-pos enabled, length-text-pos url))
        (Back-bind _ (Back-convert _ (Back-boolean enabled)) (
          Back-bind _ (Back-convert _ (Back-text url (omega (arith, short)) utf8))
            (rw fine (Back-pure (capability enabled url)))))

  read_wake_body-Back :
      (body : WakeBody)
      → FitsWake parse_url body
      → Back (read_wake_body parse_url (wake_form body)) body (Encode.array (wake_fields body))
  unfolding read_wake_body wake_form wake_fields Encode.concat
  read_wake_body-Back (register handle categories expires_at) h =
      read_register-Back handle categories expires_at h
  read_wake_body-Back (registered expires_at) h =
      Back-array (λ e. wake_shape e "registered") (Encode.uint expires_at ∷ []) (omega arith)
        (omega (arith, length-uint-pos expires_at))
        (Back-bind _ (Back-convert _ (Back-uint expires_at h)) (Back-pure (registered expires_at)))
  read_wake_body-Back clear h =
      Back-array (λ e. wake_shape e "fields") [] (omega arith) tt (Back-pure clear)
  read_wake_body-Back cleared h =
      Back-array (λ e. wake_shape e "fields") [] (omega arith) tt (Back-pure cleared)
  read_wake_body-Back query h =
      Back-array (λ e. wake_shape e "fields") [] (omega arith) tt (Back-pure query)
  read_wake_body-Back (capability enabled url) h = read_capability-Back enabled url h

  pub read_wake-Back :
      (total : ℕ) (body : WakeBody)
      → total ≤ max_wake_bytes
      → FitsWake parse_url body
      → Back (read_wake parse_url total) (wake body) (Encode.array (body_fields (wake body)))
  unfolding read_wake body_fields Encode.concat u8
  read_wake-Back total body few h =
      let small = wake_form-lt body in
      let short : ltb max_wake_bytes total ≡ false = ground (arith, few) in
      rw short (
        Back-array (λ e. wake_shape e "wake")
          (Encode.uint (wake_form body) ∷ Encode.array (wake_fields body) ∷ []) (omega arith)
          (omega (arith, length-uint-pos (wake_form body), length-array-pos (wake_fields body)))
          (Back-bind _
            (Back-convert _ (Back-narrowed _ (wake_form body) (omega (arith, small)) small))
            (Back-bind _ (read_wake_body-Back body h) (Back-pure (wake body)))))
