-- ===== src/Utf8.antt =====
-- One code point in UTF-8: `utf8_encode_len`, `utf8_encode`, `utf8_decode` and `utf8_decode_len` of
-- Sources/SubstrataQuickJS/cutils.c.
-- Bytes and code points are natural numbers. An encoder returns the bytes that the C function
-- stores at `buf`, and its return value is their number. A decoder gets the bytes from `p` on that
-- may be read, and returns the code point and the number of bytes that `*pp` advances by; `none`
-- is a read past the bytes given. `&&` in C stops at the first false operand, so each
-- test reads one more byte only if the tests before it passed.
pub mod Encode
pub mod Decode
pub mod Window
pub mod Units
pub mod Decoding
pub mod Latin
pub mod Encoding
mod Tests
use substrata_swift.Prelude.{ℕ, ◌+◌, ◌-◌, ◌*◌, ◌/◌, ◌^◌, bit_and, bit_or}
use substrata_swift.Prelude.{Bool, ◌&&◌, ltb, leb, ◌==◌, if◌then◌else◌}
use substrata_swift.Prelude.{Option, none, some, List, [], ◌∷◌}

unfoldable pub utf8_encode_len : ℕ → ℕ
utf8_encode_len c =
    if ltb c 0x80
    then 1
    else if ltb c 0x800
    then 2
    else if ltb c 0x10000
    then 3
    else if ltb c 0x110000
    then 4
    else 3

-- A store into `uint8_t` keeps the low eight bits; every value stored here has no more.
unfoldable pub utf8_encode : ℕ → List ℕ
utf8_encode c =
    if ltb c 0x80
    then c ∷ []
    else if ltb c 0x800
    then bit_or (c / 2 ^ 6) 0xC0 ∷ bit_or (bit_and c 0x3F) 0x80 ∷ []
    else if ltb c 0x10000
    then bit_or (c / 2 ^ 12) 0xE0
      ∷ bit_or (bit_and (c / 2 ^ 6) 0x3F) 0x80
      ∷ bit_or (bit_and c 0x3F) 0x80
      ∷ []
    else if ltb c 0x110000
    then bit_or (c / 2 ^ 18) 0xF0
      ∷ bit_or (bit_and (c / 2 ^ 12) 0x3F) 0x80
      ∷ bit_or (bit_and (c / 2 ^ 6) 0x3F) 0x80
      ∷ bit_or (bit_and c 0x3F) 0x80
      ∷ []
    else bit_or (0xFFFD / 2 ^ 12) 0xE0
      ∷ bit_or (bit_and (0xFFFD / 2 ^ 6) 0x3F) 0x80
      ∷ bit_or (bit_and 0xFFFD 0x3F) 0x80
      ∷ []

-- `lo <= b && b <= hi`
abbrev pub between : ℕ → ℕ → ℕ → Bool
between lo hi b = leb lo b && leb b hi

-- The common exit: one byte is consumed.
abbrev pub invalid : Option (ℕ × ℕ)
invalid = some (0xFFFD, 1)

-- The case of the lead bytes 0xC2 to 0xDF.
unfoldable pub decode_need1 : ℕ → List ℕ → Option (ℕ × ℕ)
decode_need1 c [] = none
decode_need1 c (b ∷ p) =
    if between 0x80 0xBF b then some ((c - 0xC0) * 2 ^ 6 + (b - 0x80), 2) else invalid

-- `need2`, with its second test in a function of its own.
unfoldable pub decode_need2_next : ℕ → ℕ → List ℕ → Option (ℕ × ℕ)
decode_need2_next c b [] = none
decode_need2_next c b (b1 ∷ p) =
    if between 0x80 0xBF b1
    then some ((c - 0xE0) * 2 ^ 12 + (b - 0x80) * 2 ^ 6 + (b1 - 0x80), 3)
    else invalid

unfoldable pub decode_need2 : ℕ → ℕ → List ℕ → Option (ℕ × ℕ)
unfolding decode_need2_next
decode_need2 lower c [] = none
decode_need2 lower c (b ∷ p) = if between lower 0xBF b then decode_need2_next c b p else invalid

-- `need3`, with its second and third tests.
unfoldable pub decode_need3_last : ℕ → ℕ → ℕ → List ℕ → Option (ℕ × ℕ)
decode_need3_last c b b1 [] = none
decode_need3_last c b b1 (b2 ∷ p) =
    if between 0x80 0xBF b2
    then some ((c - 0xF0) * 2 ^ 18 + (b - 0x80) * 2 ^ 12 + (b1 - 0x80) * 2 ^ 6 + (b2 - 0x80), 4)
    else invalid

unfoldable pub decode_need3_next : ℕ → ℕ → List ℕ → Option (ℕ × ℕ)
unfolding decode_need3_last
decode_need3_next c b [] = none
decode_need3_next c b (b1 ∷ p) =
    if between 0x80 0xBF b1 then decode_need3_last c b b1 p else invalid

unfoldable pub decode_need3 : ℕ → ℕ → ℕ → List ℕ → Option (ℕ × ℕ)
unfolding decode_need3_next
decode_need3 lower upper c [] = none
decode_need3 lower upper c (b ∷ p) =
    if between lower upper b then decode_need3_next c b p else invalid

-- The `switch` on the lead byte.
unfoldable pub utf8_decode : List ℕ → Option (ℕ × ℕ)
utf8_decode [] = none
utf8_decode (c ∷ p) =
    if ltb c 0x80
    then some (c, 1)
    else if between 0xC2 0xDF c
    then decode_need1 c p
    else if c == 0xE0
    then decode_need2 0xA0 c p
    else if between 0xE1 0xEF c
    then decode_need2 0x80 c p
    else if c == 0xF0
    then decode_need3 0x90 0xBF c p
    else if c == 0xF4
    then decode_need3 0x80 0x8F c p
    else if between 0xF1 0xF3 c
    then decode_need3 0x80 0xBF c p
    else invalid

-- `max_len` is the number of bytes that may be read, which are the list. Its length decides
-- which lead bytes are handed on to `utf8_decode`.
unfoldable pub utf8_decode_len : List ℕ → Option (ℕ × ℕ)
utf8_decode_len [] = some (0xFFFD, 0)
utf8_decode_len (c ∷ []) = if ltb c 0x80 then utf8_decode (c ∷ []) else invalid
utf8_decode_len (c ∷ b ∷ []) = if ltb c 0xE0 then utf8_decode (c ∷ b ∷ []) else invalid
utf8_decode_len (c ∷ b ∷ b1 ∷ []) = if ltb c 0xF0 then utf8_decode (c ∷ b ∷ b1 ∷ []) else invalid
utf8_decode_len p = utf8_decode p
