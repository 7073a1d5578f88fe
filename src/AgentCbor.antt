-- ===== src/AgentCbor.antt =====
-- backend/weald-mls/src/agent_cbor.rs: the reader of agent records. A reader is the bytes from its
-- offset on, so `data.len() - next` is the length of what is left.
pub mod Bound
pub mod Slots
use Prim.Native.String.{String}
use wealdrelay.Base.{
  ℕ, zero, suc, ◌+◌, ◌-◌, ◌*◌, ◌/◌, ◌%◌, ◌^◌, Bool, true, false, ◌&&◌, ◌||◌, not, Option, none,
  some, List, [], ◌∷◌, ltb, leb, ◌==◌, if◌then◌else◌, length, take, drop, Result, ok, err, of_be,
}

pub data CborError : Type 0 where
  truncated : CborError
  trailing : ℕ → CborError
  non_canonical_integer : CborError
  unsupported_major : ℕ → CborError
  reserved_additional_info : ℕ → CborError
  unsupported_simple : ℕ → CborError
  type_mismatch : String → CborError
  wrong_length : ℕ → ℕ → CborError
  wrong_array_count : ℕ → ℕ → CborError
  invalid_utf8 : CborError
  map_keys_not_ascending : ℕ → ℕ → CborError
  unknown_key : ℕ → CborError
  missing_key : ℕ → CborError
  too_deep : CborError

abbrev pub max_skip_depth : ℕ
max_skip_depth = 32

-- A head: its major type, its argument and the bytes behind it.
pub record Head : Type 0 where
  pub major : ℕ
  pub argument : ℕ
  pub next : List ℕ

-- The least value that needs this many bytes.
unfoldable pub minimum : ℕ → ℕ
minimum width =
    if width == 1 then 24 else if width == 2 then 256 else if width == 4 then 2 ^ 16 else 2 ^ 32

-- An argument of one, two, four or eight bytes.
unfoldable pub wide : ℕ → ℕ → List ℕ → Result CborError Head
unfolding minimum of_be
wide major width rest =
    if ltb (length rest) width
    then err truncated
    else let value = of_be 0 (take width rest) in
      if ltb value (minimum width)
      then err non_canonical_integer
      else ok (record { major = major; argument = value; next = drop width rest })

unfoldable pub head : List ℕ → Result CborError Head
unfolding wide
head [] = err truncated
head (initial ∷ rest) =
    let major = initial / 32 in
    let info = initial % 32 in
    if ltb info 24
    then ok (record { major = major; argument = info; next = rest })
    else if leb 28 info
    then err (reserved_additional_info info)
    else wide major (2 ^ (info - 24)) rest

unfoldable pub counted_in : ℕ → String → Head → Result CborError (ℕ × List ℕ)
counted_in major name h =
    if not (h.major == major)
    then err (type_mismatch name)
    else if ltb (length h.next) h.argument
    then err truncated
    else ok (h.argument, h.next)

abbrev pub on_head :
    {A : Type 0} → Result CborError Head → (Head → Result CborError A) → Result CborError A
on_head (ok h) k = k h
on_head (err e) k = err e

unfoldable pub counted : ℕ → String → List ℕ → Result CborError (ℕ × List ℕ)
unfolding head counted_in
counted major name xs = on_head (head xs) (counted_in major name)

unfoldable pub uint : List ℕ → Result CborError (ℕ × List ℕ)
unfolding head
uint xs = on_head (head xs) (λ h.
    if not (h.major == 0) then err (type_mismatch "unsigned integer") else ok (h.argument, h.next))

-- What skipping answers: how many items it looked at, and what stands behind the item.
abbrev pub Skipped : Type 0
Skipped = ℕ × Result CborError (List ℕ)

unfoldable pub skip_then : Skipped → (List ℕ → Skipped) → Skipped
skip_then (n, err e) k = (n, err e)
skip_then (n, ok rest) k = let (m, r) = k rest in (n + m, r)

-- The loop over the items of an array, or over the keys and values of a map.
unfoldable pub skip_items : (List ℕ → Skipped) → ℕ → List ℕ → Skipped
unfolding skip_then
skip_items item zero xs = (0, ok xs)
skip_items item (suc n) xs = skip_then (item xs) (skip_items item n)

-- A string behind its head.
unfoldable pub skip_string : Head → Result CborError (List ℕ)
skip_string h =
    if ltb (length h.next) h.argument then err truncated else ok (drop h.argument h.next)

-- The `match` on the major type.
unfoldable pub skip_head : (List ℕ → Skipped) → Head → Skipped
unfolding skip_items skip_string
skip_head item h =
    if h.major == 0
    then (0, ok h.next)
    else if (h.major == 2) || (h.major == 3)
    then (0, skip_string h)
    else if h.major == 4
    then skip_items item h.argument h.next
    else if h.major == 5
    then skip_items item (2 * h.argument) h.next
    else if h.major == 7
    then (0, if h.argument == 22 then ok h.next else err (unsupported_simple h.argument))
    else (0, err (unsupported_major h.major))

unfoldable pub skip_on : (List ℕ → Skipped) → Result CborError Head → Skipped
unfolding skip_head
skip_on item (ok h) = skip_head item h
skip_on item (err e) = (0, err e)

-- `skip_item_bounded`, on the levels that are left below the bound.
unfoldable pub skip : ℕ → List ℕ → Skipped
unfolding head skip_on
skip zero xs = (1, err too_deep)
skip (suc levels) xs = let (n, r) = skip_on (skip levels) (head xs) in (1 + n, r)

unfoldable pub skip_item : List ℕ → Skipped
unfolding skip
skip_item = skip (max_skip_depth + 1)

-- The bytes of one item, and what stands behind it.
unfoldable pub raw_value : List ℕ → Result CborError (List ℕ × List ℕ)
unfolding skip_item
raw_value xs = elim (skip_item xs).1 [
  | ok rest ↦ ok (take (length xs - length rest) xs, rest)
  | err e ↦ err e
]
