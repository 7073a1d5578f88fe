-- ===== src/Cbor/RoundTrip.antt =====
-- Typed reads of backend/wealdrelay/src/cbor.rs on what its encoders wrote.
use Prim.Native.String.{String}
use wealdrelay.Base.{
  [], ◌∷◌, ◌/◌, ◌*◌, refl, err, Option, some, none, get_elem?, drop→get_elem?, ltb, leb,
  if◌then◌else◌, ℕ, ◌+◌, ◌≤◌, ◌<◌, ◌≡◌, ap, sym, ◌∙◌, arith, List, ◌++◌, Bool, true, false, length,
  drop, take, IsU64, ok, drop-drop, drop-append, take-append, length-append, length-drop,
}
use mathlib.Core.List.{append_assoc}
use mathlib.Core.Option
use wealdrelay.Cbor.Encode
use wealdrelay.Cbor.Encode.{head, null, cbor_true, cbor_false}
use wealdrelay.Cbor.Utf8.{is_utf8}
use wealdrelay.Cbor.Reader.{out_of_range, byte_at, Reader, expect, remaining}
use wealdrelay.Cbor.Typed.{
  optional_bytes, uint, narrowed, slice, advance, take_bytes, bytes, bytes_of, as_boolean, boolean,
  take_text, text, read_null, bounded_count, array_header, array,
}
use wealdrelay.Cbor.Head.{read_head-head}

-- The reader stands in front of `front`.
abbrev pub At : Reader → List ℕ → Type 0
At r front = drop r.offset r.input ≡ front

-- Behind what was read stands what followed it.
pub At-advance :
    (r : Reader) (written post : List ℕ)
    → At r (written ++ post)
    → At (advance (length written) r) post
At-advance r written post e =
    sym (drop-drop r.offset (length written) r.input)
    ∙ ap (drop (length written)) e
    ∙ drop-append written post

pub expect_ok :
    (wanted : ℕ) (expected : String) (r : Reader) (v : ℕ) (post : List ℕ)
    → wanted < 8
    → IsU64 v
    → At r (head wanted v ++ post)
    → expect wanted expected r ≡ (ok v, advance (length (head wanted v)) r)
unfolding expect
expect_ok wanted expected r v post hw hv e = ground (arith, read_head-head r wanted v post hw hv e)

pub uint_back :
    (r : Reader) (v : ℕ) (post : List ℕ)
    → IsU64 v
    → At r (Encode.uint v ++ post)
    → uint r ≡ (ok v, advance (length (Encode.uint v)) r)
unfolding uint Encode.uint
uint_back r v post hv e = expect_ok 0 _ r v post (omega arith) hv e

pub narrowed_back :
    (modulus : ℕ) (r : Reader) (v : ℕ) (post : List ℕ)
    → IsU64 v
    → v < modulus
    → At r (Encode.uint v ++ post)
    → narrowed modulus r ≡ (ok v, advance (length (Encode.uint v)) r)
unfolding narrowed
narrowed_back modulus r v post hv hm e = ground (arith, uint_back r v post hv e)

-- In front of the encoding of a 64-bit number that is not below the modulus of the field, whatever
-- follows, a narrowed read refuses with `OutOfRange` and that number, and the cursor is behind the
-- number.
pub narrowed_wide :
    (modulus : ℕ) (r : Reader) (v : ℕ) (post : List ℕ)
    → IsU64 v
    → modulus ≤ v
    → At r (Encode.uint v ++ post)
    → narrowed modulus r ≡ (err (out_of_range v), advance (length (Encode.uint v)) r)
unfolding narrowed
narrowed_wide modulus r v post hv hm e = ground (arith, uint_back r v post hv e)

pub slice-append :
    (r : Reader) (value post : List ℕ) → At r (value ++ post) → slice r (length value) ≡ value
unfolding slice
slice-append r value post e = ap (take (length value)) e ∙ take-append value post

pub remaining-append :
    (r : Reader) (value post : List ℕ) → At r (value ++ post) → length value ≤ remaining r
unfolding remaining
remaining-append r value post e =
    omega (arith, ap length e, length-drop r.offset r.input, length-append value post)

-- Two steps forward are one.
pub advance-append :
    (r : Reader) (xs ys : List ℕ)
    → advance (length ys) (advance (length xs) r) ≡ advance (length (xs ++ ys)) r
advance-append r xs ys = ground (arith, length-append xs ys)

take_bytes_back :
    (start : ℕ) (r : Reader) (value post : List ℕ)
    → At r (value ++ post)
    → take_bytes start (length value) r ≡ (ok value, advance (length value) r)
unfolding take_bytes
take_bytes_back start r value post e =
    ground (arith, remaining-append r value post e, slice-append r value post e)

pub bytes_back :
    (r : Reader) (value post : List ℕ)
    → IsU64 (length value)
    → At r (Encode.bytes value ++ post)
    → bytes r ≡ (ok value, advance (length (Encode.bytes value)) r)
unfolding bytes Encode.bytes
bytes_back r value post hv e =
    let h = head 2 (length value) in
    let e' = e ∙ append_assoc h value post in
    ground (
      arith,
      expect_ok 2 "byte string" r (length value) (value ++ post) (omega arith) hv e',
      take_bytes_back r.offset (advance (length h) r) value post (At-advance r h _ e'),
      advance-append r h value,
    )

pub bytes_of_back :
    (count : ℕ) (r : Reader) (value post : List ℕ)
    → IsU64 (length value)
    → length value ≡ count
    → At r (Encode.bytes value ++ post)
    → bytes_of count r ≡ (ok value, advance (length (Encode.bytes value)) r)
unfolding bytes_of
bytes_of_back count r value post hv hc e = ground (arith, bytes_back r value post hv e)

take_text_back :
    (start : ℕ) (r : Reader) (value post : List ℕ)
    → is_utf8 value ≡ true
    → At r (value ++ post)
    → take_text start (length value) r ≡ (ok value, advance (length value) r)
unfolding take_text
take_text_back start r value post hu e =
    ground (arith, remaining-append r value post e, slice-append r value post e)

-- In front of the encoding of a UTF-8 text of a 64-bit length, whatever follows, `text` answers
-- the text and stops behind it.
pub text_back :
    (r : Reader) (value post : List ℕ)
    → IsU64 (length value)
    → is_utf8 value ≡ true
    → At r (Encode.text value ++ post)
    → text r ≡ (ok value, advance (length (Encode.text value)) r)
unfolding text Encode.text
text_back r value post hv hu e =
    let h = head 3 (length value) in
    let e' = e ∙ append_assoc h value post in
    ground (
      arith,
      expect_ok 3 "text string" r (length value) (value ++ post) (omega arith) hv e',
      take_text_back r.offset (advance (length h) r) value post hu (At-advance r h _ e'),
      advance-append r h value,
    )

pub boolean_back :
    (r : Reader) (value : Bool) (post : List ℕ)
    → At r (Encode.boolean value ++ post)
    → boolean r ≡ (ok value, advance (length (Encode.boolean value)) r)
unfolding boolean Encode.boolean as_boolean head
boolean_back r true post e =
    ground (arith, expect_ok 7 "boolean" r 21 post (omega arith) (omega arith) e)
boolean_back r false post e =
    ground (arith, expect_ok 7 "boolean" r 20 post (omega arith) (omega arith) e)

pub read_null_back :
    (r : Reader) (post : List ℕ) → At r (null ++ post) → read_null r ≡ (ok tt, advance 1 r)
unfolding read_null head
read_null_back r post e = ground (arith, read_head-head r 7 22 post (omega arith) (omega arith) e)

pub array_header_back :
    (r : Reader) (count : ℕ) (post : List ℕ)
    → IsU64 count
    → count ≤ length post
    → At r (head 4 count ++ post)
    → array_header r ≡ (ok count, advance (length (head 4 count)) r)
unfolding array_header bounded_count remaining
array_header_back r count post hv hp e =
    let h = head 4 count in
    let rest = At-advance r h post e in
    ground (
      arith,
      expect_ok 4 "array" r count post (omega arith) hv e,
      ap length rest,
      length-drop (r.offset + length h) r.input,
    )

pub array_back :
    (count : ℕ) (r : Reader) (post : List ℕ)
    → IsU64 count
    → count ≤ length post
    → At r (head 4 count ++ post)
    → array count r ≡ (ok tt, advance (length (head 4 count)) r)
unfolding array
array_back count r post hv hp e = ground (arith, array_header_back r count post hv hp e)

abbrev pub first : List ℕ → Option ℕ
first xs = get_elem? xs 0

-- The initial byte of a head tells its major type.
pub head-first :
    (major v : ℕ) → major < 8 → (b : ℕ) × (first (head major v) ≡ some b) × (b / 32 ≡ major)
unfolding head
head-first major v h = (initial major v, ground arith, ground arith)
  where
    initial : ℕ → ℕ → ℕ
    initial major v =
        major * 32
        + (if ltb v 24
            then v
            else if leb v 0xff
            then 24
            else if leb v 0xffff
            then 25
            else if leb v 0xffff_ffff
            then 26
            else 27)

pub byte_at-first :
    (r : Reader) (xs post : List ℕ) {b : ℕ}
    → At r (xs ++ post)
    → first xs ≡ some b
    → byte_at r r.offset ≡ ok b
unfolding byte_at
byte_at-first r [] post e f = cc
byte_at-first r (x ∷ xs) post e f = ground (arith, drop→get_elem? r.input r.offset e)

pub first-append : (xs ys : List ℕ) {b : ℕ} → first xs ≡ some b → first (xs ++ ys) ≡ some b
first-append [] ys e = cc
first-append (x ∷ xs) ys e = e

-- In front of the encoding of a byte string of a 64-bit length or of `null`, whatever follows,
-- `optional_bytes` answers it and stops behind it.
pub optional_bytes_back :
    (r : Reader) (value : Option (List ℕ)) (post : List ℕ)
    → IsU64 (length (Option.get_or value []))
    → At r (Encode.optional_bytes value ++ post)
    → optional_bytes r ≡ (ok value, advance (length (Encode.optional_bytes value)) r)
unfolding optional_bytes Encode.optional_bytes
optional_bytes_back r none post hv e =
    ground (arith, byte_at-first r null post e refl, read_null_back r post e)
optional_bytes_back r (some value) post hv e =
    let (b, here, major) = head-first 2 (length value) (omega arith) in
    ground (
      arith,
      byte_at-first r (Encode.bytes value) post {b = b} e
          (unfold Encode.bytes in first-append (head 2 (length value)) value here),
      bytes_back r value post hv e,
    )
