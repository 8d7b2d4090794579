-- ===== src/Utf8/Encode.antt =====
-- The bytes that `utf8_encode` stores, in plain arithmetic.
use substrata_swift.Prelude.{ℕ, ◌+◌, ◌/◌, ◌%◌, ◌≤◌, ◌<◌, bit_and, bit_or, ◌≡◌, arith}
use substrata_swift.Prelude.{List, [], ◌∷◌, length, All, ltb, if◌then◌else◌}
use substrata_swift.Prelude.Bits.{bit_or_low_field, bit_and_mask}
use substrata_swift.Utf8.{utf8_encode, utf8_encode_len}

low6 : (c : ℕ) → bit_and c 0x3F ≡ c % 64
low6 c = bit_and_mask 6 c

-- A continuation byte.
pub tail_byte : (c : ℕ) → bit_or (bit_and c 0x3F) 0x80 ≡ 0x80 + c % 64
tail_byte c = omega (arith, low6 c, bit_or_low_field 6 2 (bit_and c 0x3F) (omega (arith, low6 c)))

pub lead2 : (x : ℕ) → x < 32 → bit_or x 0xC0 ≡ 0xC0 + x
lead2 x h = bit_or_low_field 5 6 x h

lead3 : (x : ℕ) → x < 16 → bit_or x 0xE0 ≡ 0xE0 + x
lead3 x h = bit_or_low_field 4 14 x h

lead4 : (x : ℕ) → x < 8 → bit_or x 0xF0 ≡ 0xF0 + x
lead4 x h = bit_or_low_field 3 30 x h

-- The UTF-8 form of a code point below 0x110000, surrogates included.
unfoldable pub standard : ℕ → List ℕ
standard c =
    if ltb c 0x80
    then c ∷ []
    else if ltb c 0x800
    then (0xC0 + c / 64) ∷ (0x80 + c % 64) ∷ []
    else if ltb c 0x10000
    then (0xE0 + c / 4096) ∷ (0x80 + c / 64 % 64) ∷ (0x80 + c % 64) ∷ []
    else (0xF0 + c / 262144) ∷ (0x80 + c / 4096 % 64) ∷ (0x80 + c / 64 % 64) ∷ (0x80 + c % 64) ∷ []

-- On every code point the stored bytes are the standard form, and past 0x10FFFF they are that of
-- U+FFFD.
pub utf8_encode-standard :
    (c : ℕ) → utf8_encode c ≡ (if ltb c 0x110000 then standard c else standard 0xFFFD)
unfolding utf8_encode standard
utf8_encode-standard c = ground (
  arith,
  lead2 (c / 64),
  lead3 (c / 4096),
  lead4 (c / 262144),
  tail_byte c,
  tail_byte (c / 64),
  tail_byte (c / 4096),
)

abbrev pub IsByte : ℕ → Type 0
IsByte b = b < 256

-- Every value that `utf8_encode` stores fits a byte, there are as many as `utf8_encode_len`
-- says, and that is 1 to 4.
pub utf8_encode_shape :
    (c : ℕ)
    → All IsByte (utf8_encode c)
      × (length (utf8_encode c) ≡ utf8_encode_len c)
      × (1 ≤ utf8_encode_len c)
      × (utf8_encode_len c ≤ 4)
unfolding standard utf8_encode_len
utf8_encode_shape c = ground (arith, utf8_encode-standard c)

pub encode_one : (b : ℕ) → b < 0x80 → utf8_encode b ≡ b ∷ []
unfolding utf8_encode
encode_one b h = ground arith
