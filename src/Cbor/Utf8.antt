-- ===== src/Cbor/Utf8.antt =====
-- `std::str::from_utf8`, as the table of well-formed byte sequences of the Unicode standard: what a
-- byte may be after those before it.
use wealdrelay.Base.{ℕ, ◌≡◌, refl, Bool, true, false, List, [], ◌∷◌, ◌&&◌, leb, ltb, if◌then◌else◌}

-- What may come next: a new character, one to three continuation bytes, or the second byte after
-- 0xe0, 0xed, 0xf0 or 0xf4, whose range is narrower.
pub data Utf8State : Type 0 where
  start one two three after_e0 after_ed after_f0 after_f4 invalid : Utf8State

abbrev between : ℕ → ℕ → ℕ → Bool
between lo hi b = leb lo b && leb b hi

first_byte : ℕ → Utf8State
first_byte b =
    if ltb b 0x80
    then start
    else if between 0xc2 0xdf b
    then one
    else if leb b 0xe0 && leb 0xe0 b
    then after_e0
    else if between 0xed 0xed b
    then after_ed
    else if between 0xe1 0xef b
    then two
    else if between 0xf0 0xf0 b
    then after_f0
    else if between 0xf1 0xf3 b
    then three
    else if between 0xf4 0xf4 b
    then after_f4
    else invalid

utf8_next : Utf8State → ℕ → Utf8State
unfolding first_byte
utf8_next start b = first_byte b
utf8_next one b = if between 0x80 0xbf b then start else invalid
utf8_next two b = if between 0x80 0xbf b then one else invalid
utf8_next three b = if between 0x80 0xbf b then two else invalid
utf8_next after_e0 b = if between 0xa0 0xbf b then one else invalid
utf8_next after_ed b = if between 0x80 0x9f b then one else invalid
utf8_next after_f0 b = if between 0x90 0xbf b then two else invalid
utf8_next after_f4 b = if between 0x80 0x8f b then two else invalid
utf8_next invalid b = invalid

is_start : Utf8State → Bool
is_start start = true
is_start _ = false

utf8_from : Utf8State → List ℕ → Bool
unfolding utf8_next is_start
utf8_from s [] = is_start s
utf8_from s (b ∷ bs) = utf8_from (utf8_next s b) bs

unfoldable pub is_utf8 : List ℕ → Bool
unfolding utf8_from
is_utf8 bs = utf8_from start bs

euro_sign : is_utf8 (0x24 ∷ 0xe2 ∷ 0x82 ∷ 0xac ∷ []) ≡ true
unfolding is_utf8
euro_sign = refl

overlong : is_utf8 (0xc0 ∷ 0x80 ∷ []) ≡ false
unfolding is_utf8
overlong = refl

surrogate : is_utf8 (0xed ∷ 0xa0 ∷ 0x80 ∷ []) ≡ false
unfolding is_utf8
surrogate = refl
