-- ===== src/Cbor/Typed.antt =====
-- The typed reads of the cursor of backend/wealdrelay/src/cbor.rs.
use wealdrelay.Base.{
  ℕ, ◌+◌, ◌/◌, ◌^◌, Bool, true, false, Option, none, some, List, ltb, ◌==◌, if◌then◌else◌, length,
  take, drop, ok, ◌>>=◌, ◌>>◌, pure, fail, lift,
}
use wealdrelay.Cbor.Encode.{major_uint, major_bytes, major_text, major_array, major_simple}
use wealdrelay.Cbor.Utf8.{is_utf8}
use wealdrelay.Cbor.Reader.{
  Reader, Read, remaining, byte_at, read_head, expect, rewind, truncated, unsupported_simple,
  wrong_length, wrong_array_count, out_of_range, invalid_utf8,
}

unfoldable pub uint : Read ℕ
unfolding expect
uint = expect major_uint "unsigned integer"

-- `uN::try_from(value).map_err(|_| OutOfRange(value))` behind `uint`, with the modulus of the
-- width. The cursor is past the integer either way.
unfoldable pub narrowed : ℕ → Read ℕ
unfolding uint
narrowed modulus = do
  value ← uint
  if ltb value modulus then pure value else fail (out_of_range value)

unfoldable pub u8 : Read ℕ
unfolding narrowed
u8 = narrowed (2 ^ 8)

unfoldable pub u16 : Read ℕ
unfolding narrowed
u16 = narrowed (2 ^ 16)

unfoldable pub u32 : Read ℕ
unfolding narrowed
u32 = narrowed (2 ^ 32)

-- `self.data[self.offset..self.offset + length]`
unfoldable pub slice : Reader → ℕ → List ℕ
slice r n = take n (drop r.offset r.input)

abbrev pub advance : ℕ → Reader → Reader
advance n r = record r { offset = r.offset + n }

-- Behind the head of a byte string: refuse more bytes than remain, else copy them.
unfoldable pub take_bytes : ℕ → ℕ → Read (List ℕ)
unfolding remaining slice
take_bytes start argument r =
    if ltb (remaining r) argument
    then rewind start truncated r
    else (ok (slice r argument), advance argument r)

unfoldable pub bytes : Read (List ℕ)
unfolding expect take_bytes
bytes r = (do argument ← expect major_bytes "byte string"; take_bytes r.offset argument) r

unfoldable pub bytes_of : ℕ → Read (List ℕ)
unfolding bytes
bytes_of count r =
    (do
      value ← bytes
      if length value == count
          then pure value
          else rewind r.offset (wrong_length count (length value)))
      r

-- `u8::try_from(value).unwrap_or(u8::MAX)`
unfoldable pub clamp_u8 : ℕ → ℕ
clamp_u8 value = if ltb value 256 then value else 0xff

unfoldable pub as_boolean : ℕ → ℕ → Read Bool
unfolding clamp_u8
as_boolean start argument =
    if argument == 20
    then pure false
    else if argument == 21
    then pure true
    else rewind start (unsupported_simple (clamp_u8 argument))

unfoldable pub boolean : Read Bool
unfolding expect as_boolean
boolean r = (do argument ← expect major_simple "boolean"; as_boolean r.offset argument) r

unfoldable pub take_text : ℕ → ℕ → Read (List ℕ)
unfolding remaining slice
take_text start argument r =
    if ltb (remaining r) argument
    then rewind start truncated r
    else if is_utf8 (slice r argument)
    then (ok (slice r argument), advance argument r)
    else rewind start invalid_utf8 r

unfoldable pub text : Read (List ℕ)
unfolding expect take_text
text r = (do argument ← expect major_text "text string"; take_text r.offset argument) r

-- The head of a simple value must be `null`.
unfoldable pub read_null : Read (Unit {0})
unfolding read_head clamp_u8
read_null r =
    (do
      (_, argument) ← read_head
      if argument == 22 then pure tt else rewind r.offset (unsupported_simple (clamp_u8 argument)))
      r

unfoldable pub optional_bytes : Read (Option (List ℕ))
unfolding byte_at bytes read_null
optional_bytes r =
    (do
      initial ← lift (byte_at r r.offset)
      if initial / 32 == major_simple
          then (do read_null; pure none)
          else (do value ← bytes; pure (some value)))
      r

unfoldable pub optional_is_null : Read Bool
unfolding byte_at read_null
optional_is_null r =
    (do
      initial ← lift (byte_at r r.offset)
      if initial / 32 == major_simple then (do read_null; pure true) else pure false)
      r

unfoldable pub bounded_count : ℕ → ℕ → Read ℕ
unfolding remaining
bounded_count start argument r =
    if ltb (remaining r) argument then rewind start truncated r else (ok argument, r)

unfoldable pub array_header : Read ℕ
unfolding expect bounded_count
array_header r = (do argument ← expect major_array "array"; bounded_count r.offset argument) r

unfoldable pub array : ℕ → Read (Unit {0})
unfolding array_header
array count r =
    (do
      got ← array_header
      if got == count then pure tt else rewind r.offset (wrong_array_count count got))
      r
