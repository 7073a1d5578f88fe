-- ===== src/Tests/Frames.antt =====
-- A tag and an error code of backend/wealdrelay/src/frame.rs.
use wealdrelay.Cbor.Encode
use wealdrelay.Push.Category.{is_valid_mask}
use wealdrelay.Frame.Body.{Frame, wake, register, encode, body_fields, wake_fields, tag, wake_form}
use wealdrelay.Frame.Fits.{Fits, byte_limit}
use wealdrelay.Frame.Decode.{decode}
use wealdrelay.Frame.RoundTrip.{decode-encode_frame}
use wealdrelay.Base.{ℕ, ok, arith, Option, none, List, [], ◌∷◌, ◌≤◌, length, ◌≡◌, refl}
use wealdrelay.Frame.Tag.{as_u16}

-- No text is a url.
abbrev parse_none : List ℕ → Option (List ℕ × Option (List ℕ))
parse_none url = none

abbrev handle : List ℕ
handle = 0 ∷ 1 ∷ 2 ∷ 3 ∷ 4 ∷ 5 ∷ 6 ∷ 7 ∷ 8 ∷ 9 ∷ 10 ∷ 11 ∷ 12 ∷ 13 ∷ 14 ∷ 15 ∷ []

abbrev registration : Frame
registration = wake (register handle 3 1_000_000)

registration-Fits : Fits parse_none registration
registration-Fits = (refl, omega arith, unfold is_valid_mask in refl, omega arith)

registration-short : length (encode registration) ≤ byte_limit registration
unfolding encode body_fields wake_fields tag as_u16 wake_form Encode.array Encode.concat Encode.uint
    Encode.bytes Encode.head
registration-short = omega arith

decode-encode_frame_example : decode parse_none (encode registration) ≡ ok registration
decode-encode_frame_example =
    decode-encode_frame parse_none registration registration-Fits registration-short
