-- ===== src/Cbor/Encode.antt =====
-- The encoding half of backend/wealdrelay/src/cbor.rs. A byte string is a list of numbers below
-- 256. A `str` is the list of its UTF-8 bytes. `tag | n` adds, because the tag's low five bits are
-- clear.
use wealdrelay.Base.{
  ℕ, ◌+◌, ◌*◌, ◌%◌, ◌^◌, Bool, Option, none, some, List, [], ◌∷◌, ◌++◌, ltb, leb, if◌then◌else◌,
  length, to_be_bytes,
}

abbrev pub major_uint : ℕ
major_uint = 0

abbrev pub major_bytes : ℕ
major_bytes = 2

abbrev pub major_text : ℕ
major_text = 3

abbrev pub major_array : ℕ
major_array = 4

abbrev pub major_simple : ℕ
major_simple = 7

abbrev pub null : List ℕ
null = 0xf6 ∷ []

abbrev pub cbor_false : List ℕ
cbor_false = 0xf4 ∷ []

abbrev pub cbor_true : List ℕ
cbor_true = 0xf5 ∷ []

-- `uN::try_from(value).unwrap_or_default()`, with the modulus of the width.
abbrev pub narrow : ℕ → ℕ → ℕ
narrow modulus value = if ltb value modulus then value else 0

unfoldable pub head : ℕ → ℕ → List ℕ
unfolding to_be_bytes
head major value =
    let tag = major * 32 % 256 in
    if ltb value 24
    then (tag + narrow 256 value) ∷ []
    else if leb value 0xff
    then (tag + 24) ∷ narrow 256 value ∷ []
    else if leb value 0xffff
    then (tag + 25) ∷ to_be_bytes 2 (narrow (2 ^ 16) value)
    else if leb value 0xffff_ffff
    then (tag + 26) ∷ to_be_bytes 4 (narrow (2 ^ 32) value)
    else (tag + 27) ∷ to_be_bytes 8 value

unfoldable pub uint : ℕ → List ℕ
uint value = head major_uint value

unfoldable pub bytes : List ℕ → List ℕ
bytes value = head major_bytes (length value) ++ value

unfoldable pub boolean : Bool → List ℕ
boolean value = if value then cbor_true else cbor_false

unfoldable pub text : List ℕ → List ℕ
text value = head major_text (length value) ++ value

-- The items, one after the other.
unfoldable pub concat : List (List ℕ) → List ℕ
concat [] = []
concat (item ∷ items) = item ++ concat items

unfoldable pub array : List (List ℕ) → List ℕ
unfolding concat
array items = head major_array (length items) ++ concat items

unfoldable pub optional_bytes : Option (List ℕ) → List ℕ
unfolding bytes
optional_bytes (some value) = bytes value
optional_bytes none = null
