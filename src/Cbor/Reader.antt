-- ===== src/Cbor/Reader.antt =====
-- The cursor of backend/wealdrelay/src/cbor.rs. A method answers a result and the reader as it
-- leaves it, on errors too.
use Prim.Native.String.{String}
use wealdrelay.Base.{
  ℕ, zero, suc, ◌+◌, ◌-◌, ◌*◌, ◌/◌, ◌%◌, ◌^◌, Bool, List, ◌||◌, ltb, leb, ◌==◌, if◌then◌else◌,
  length, get_elem?, Result, ok, err, ok_or, Method, ◌>>=◌, pure,
}
use wealdrelay.Cbor.Encode.{major_uint, major_bytes, major_array, major_simple}

pub data CborError : Type 0 where
  truncated : CborError
  unsupported_major : ℕ → CborError
  non_canonical_integer : CborError
  reserved_additional_info : ℕ → CborError
  unsupported_simple : ℕ → CborError
  type_mismatch : String → CborError
  wrong_length : ℕ → ℕ → CborError
  wrong_array_count : ℕ → ℕ → CborError
  out_of_range : ℕ → CborError
  trailing_bytes : ℕ → CborError
  invalid_utf8 : CborError

pub record Reader : Type 0 where
  pub input : List ℕ
  pub offset : ℕ

abbrev pub Read : Type 0 → Type 0
Read A = Method Reader CborError A

unfoldable pub new : List ℕ → Reader
new input = record { input = input; offset = 0 }

unfoldable pub is_at_end : Reader → Bool
is_at_end r = r.offset == length r.input

-- `usize` subtraction: the offset never passes the end.
unfoldable pub remaining : Reader → ℕ
remaining r = length r.input - r.offset

unfoldable pub finish : Read (Unit {0})
unfolding is_at_end remaining
finish r = if is_at_end r then (ok tt, r) else (err (trailing_bytes (remaining r)), r)

unfoldable pub byte_at : Reader → ℕ → Result CborError ℕ
byte_at r index = ok_or (get_elem? r.input index) truncated

-- `for index in 0..width`, with `n` rounds left. `|` adds, because the shift clears the low byte.
unfoldable pub read_argument : Reader → ℕ → ℕ → ℕ → Result CborError ℕ
unfolding byte_at
read_argument r zero index value = ok value
read_argument r (suc n) index value = elim (byte_at r (r.offset + 1 + index)) [
  | ok byte ↦ read_argument r n (index + 1) (value * 256 % 2 ^ 64 + byte)
  | err e ↦ err e
]

-- The least value that needs this many bytes.
unfoldable pub minimum : ℕ → ℕ
minimum width =
    if width == 1
    then 24
    else if width == 2
    then 0xff + 1
    else if width == 4
    then 0xffff + 1
    else 0xffff_ffff + 1

-- The part of `read_head` behind the loop.
unfoldable pub accept_argument : ℕ → ℕ → ℕ → Read (ℕ × ℕ)
unfolding minimum
accept_argument major width value r =
    if ltb value (minimum width)
    then (err non_canonical_integer, r)
    else (ok (major, value), record r { offset = r.offset + (1 + width) })

unfoldable pub read_long : ℕ → ℕ → Read (ℕ × ℕ)
unfolding read_argument accept_argument
read_long major width r = elim (read_argument r width 0 0) [
  | err e ↦ (err e, r)
  | ok value ↦ accept_argument major width value r
]

-- `initial >> 5` and `initial & 0x1f`.
unfoldable pub dispatch_head : ℕ → Read (ℕ × ℕ)
unfolding read_long
dispatch_head initial r =
    let major = initial / 32 in
    let info = initial % 32 in
    if ltb info 24
    then (ok (major, info), record r { offset = r.offset + 1 })
    else if leb 28 info
    then (err (reserved_additional_info info), r)
    else read_long major (2 ^ (info - 24)) r

unfoldable pub read_head : Read (ℕ × ℕ)
unfolding dispatch_head byte_at
read_head r = elim (byte_at r r.offset) [
  | err e ↦ (err e, r)
  | ok initial ↦ dispatch_head initial r
]

unfoldable pub mismatch : ℕ → String → CborError
mismatch major expected =
    if major == major_uint || major == major_bytes || major == major_array || major == major_simple
    then type_mismatch expected
    else unsupported_major major

-- `self.offset = start; return Err(e)`.
abbrev pub rewind : {A : Type 0} → ℕ → CborError → Read A
rewind start e r = (err e, record r { offset = start })

-- The opening that every typed read shares: a head of the wanted major type, or a rewind.
unfoldable pub expect : ℕ → String → Read ℕ
unfolding read_head mismatch
expect wanted expected r =
    let start = r.offset in
    (do
      (major, argument) ← read_head
      if major == wanted then pure argument else rewind start (mismatch major expected))
      r
