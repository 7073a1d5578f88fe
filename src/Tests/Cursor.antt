-- ===== src/Tests/Cursor.antt =====
-- Readers in front of single items, for backend/wealdrelay/src/cbor.rs.
use wealdrelay.Base.{◌≡◌, refl, arith, [], ◌∷◌, length, err}
use wealdrelay.Cbor.Encode
use wealdrelay.Cbor.Encode.{head}
use wealdrelay.Cbor.Reader.{Reader, read_head, out_of_range}
use wealdrelay.Cbor.Typed.{narrowed, advance}
use wealdrelay.Cbor.Head.{Reads, read_head-head}
use wealdrelay.Cbor.Canonical.{Answers, HeadAt, read_head_answer}
use wealdrelay.Cbor.RoundTrip.{narrowed_wide}

-- 500 in its two-byte form, in front of another byte.
abbrev five_hundred : Reader
five_hundred = record { input = 0x19 ∷ 1 ∷ 0xf4 ∷ 7 ∷ []; offset = 0 }

-- 5 spelled in two bytes, which is refused.
abbrev overlong : Reader
overlong = record { input = 0x18 ∷ 5 ∷ []; offset = 0 }

abbrev two_bytes : Reader
two_bytes = record { input = 0x42 ∷ 8 ∷ 9 ∷ []; offset = 0 }

-- The letter e with an acute accent.
abbrev accented : Reader
accented = record { input = 0x62 ∷ 0xc3 ∷ 0xa9 ∷ []; offset = 0 }

abbrev yes_flag : Reader
yes_flag = record { input = 0xf5 ∷ []; offset = 0 }

abbrev pair_head : Reader
pair_head = record { input = 0x82 ∷ 1 ∷ 2 ∷ []; offset = 0 }

abbrev nothing : Reader
nothing = record { input = 0xf6 ∷ []; offset = 0 }

read_head-head_example : Reads five_hundred 0 500
read_head-head_example =
    read_head-head five_hundred 0 500 (7 ∷ []) (omega arith) (omega arith) (unfold head in refl)

read_head_answer_example : Answers overlong (HeadAt overlong) (read_head overlong)
read_head_answer_example = read_head_answer overlong (omega arith)

narrowed_wide_example :
    narrowed 256 five_hundred
    ≡ (err (out_of_range 500), advance (length (Encode.uint 500)) five_hundred)
narrowed_wide_example =
    narrowed_wide 256 five_hundred 500 (7 ∷ []) (omega arith) (omega arith)
      (unfold Encode.uint head in refl)
