-- ===== src/Utf8/Decode.antt =====
-- `utf8_decode` against `utf8_encode`: it reads back what was stored, it accepts nothing else.
use substrata_swift.Prelude.{ℕ, ◌+◌, ◌-◌, ◌*◌, ◌^◌, ◌≤◌, ◌<◌, ◌≡◌, arith}
use substrata_swift.Prelude.{List, [], ◌∷◌, ◌++◌, length, take}
use substrata_swift.Prelude.{some, ◌⊎◌}
use substrata_swift.Utf8.{utf8_encode, utf8_encode_len, utf8_decode}
use substrata_swift.Utf8.{decode_need1, decode_need2, decode_need3}
use substrata_swift.Utf8.Encode.{standard, utf8_encode-standard, encode_one}

utf8_decode-standard :
    (c : ℕ) (rest : List ℕ)
    → c < 0x110000
    → utf8_decode (standard c ++ rest) ≡ some (c, length (standard c))
unfolding utf8_decode decode_need1 decode_need2 decode_need3 standard
utf8_decode-standard c rest h = ground arith

-- `utf8_decode` reads back every code point that `utf8_encode` stored, whatever follows it.
pub utf8_decode-encode :
    (c : ℕ) (rest : List ℕ)
    → c < 0x110000
    → utf8_decode (utf8_encode c ++ rest) ≡ some (c, utf8_encode_len c)
unfolding utf8_decode decode_need1 decode_need2 decode_need3 utf8_encode_len standard
utf8_decode-encode c rest h = ground (arith, utf8_encode-standard c)

-- The code points that the three multibyte cases compute are stored as the bytes they came from.
encode_two :
    (b b1 : ℕ)
    → 0xC2 ≤ b
    → b ≤ 0xDF
    → 0x80 ≤ b1
    → b1 ≤ 0xBF
    → utf8_encode ((b - 0xC0) * 2 ^ 6 + (b1 - 0x80)) ≡ b ∷ b1 ∷ []
unfolding standard
encode_two b b1 h0 h1 h2 h3 =
    ground (arith, utf8_encode-standard ((b - 0xC0) * 2 ^ 6 + (b1 - 0x80)))

encode_three :
    (b b1 b2 : ℕ)
    → 0xE0 ≤ b
    → b ≤ 0xEF
    → 0x80 ≤ b1
    → b1 ≤ 0xBF
    → 0x80 ≤ b2
    → b2 ≤ 0xBF
    → 0xE0A0 ≤ b * 256 + b1
    → utf8_encode ((b - 0xE0) * 2 ^ 12 + (b1 - 0x80) * 2 ^ 6 + (b2 - 0x80)) ≡ b ∷ b1 ∷ b2 ∷ []
unfolding standard
encode_three b b1 b2 h0 h1 h2 h3 h4 h5 h6 =
    let c = (b - 0xE0) * 2 ^ 12 + (b1 - 0x80) * 2 ^ 6 + (b2 - 0x80) in
    ground (arith, utf8_encode-standard c)

encode_four :
    (b b1 b2 b3 : ℕ)
    → 0xF090 ≤ b * 256 + b1
    → b * 256 + b1 ≤ 0xF48F
    → 0x80 ≤ b1
    → b1 ≤ 0xBF
    → 0x80 ≤ b2
    → b2 ≤ 0xBF
    → 0x80 ≤ b3
    → b3 ≤ 0xBF
    → utf8_encode ((b - 0xF0) * 2 ^ 18 + (b1 - 0x80) * 2 ^ 12 + (b2 - 0x80) * 2 ^ 6 + (b3 - 0x80))
      ≡ b ∷ b1 ∷ b2 ∷ b3 ∷ []
unfolding standard
encode_four b b1 b2 b3 h0 h1 h2 h3 h4 h5 h6 h7 =
    let c = (b - 0xF0) * 2 ^ 18 + (b1 - 0x80) * 2 ^ 12 + (b2 - 0x80) * 2 ^ 6 + (b3 - 0x80) in
    ground (arith, utf8_encode-standard c)

-- A decoded pair of a code point and a length that is right for the bytes `p`.
abbrev Exact : List ℕ → ℕ → ℕ → Type 0
Exact p c n = ((c ≡ 0xFFFD) × (n ≡ 1)) ⊎ ((c < 0x110000) × (take n p ≡ utf8_encode c))

need1_sound :
    (b : ℕ) (p : List ℕ) (c n : ℕ)
    → 0xC2 ≤ b
    → b ≤ 0xDF
    → decode_need1 b p ≡ some (c, n)
    → Exact (b ∷ p) c n
unfolding decode_need1
need1_sound b [] c n h0 h1 e = ground arith
need1_sound b (b1 ∷ p) c n h0 h1 e = ground (arith, encode_two b b1)

need2_sound :
    (lower b : ℕ) (p : List ℕ) (c n : ℕ)
    → 0xE0 ≤ b
    → b ≤ 0xEF
    → 0x80 ≤ lower
    → 0xE0A0 ≤ b * 256 + lower
    → decode_need2 lower b p ≡ some (c, n)
    → Exact (b ∷ p) c n
unfolding decode_need2
need2_sound lower b [] c n h0 h1 h2 h3 e = ground arith
need2_sound lower b (b1 ∷ []) c n h0 h1 h2 h3 e = ground arith
need2_sound lower b (b1 ∷ b2 ∷ p) c n h0 h1 h2 h3 e = ground (arith, encode_three b b1 b2)

need3_sound :
    (lower upper b : ℕ) (p : List ℕ) (c n : ℕ)
    → 0x80 ≤ lower
    → upper ≤ 0xBF
    → 0xF090 ≤ b * 256 + lower
    → b * 256 + upper ≤ 0xF48F
    → decode_need3 lower upper b p ≡ some (c, n)
    → Exact (b ∷ p) c n
unfolding decode_need3
need3_sound lower upper b [] c n h0 h1 h2 h3 e = ground arith
need3_sound lower upper b (b1 ∷ []) c n h0 h1 h2 h3 e = ground arith
need3_sound lower upper b (b1 ∷ b2 ∷ []) c n h0 h1 h2 h3 e = ground arith
need3_sound lower upper b (b1 ∷ b2 ∷ b3 ∷ p) c n h0 h1 h2 h3 e =
    ground (arith, encode_four b b1 b2 b3)

-- What `utf8_decode` returns on bytes is U+FFFD after one byte, or a code point whose stored form
-- is exactly the bytes consumed: no overlong form and no value past 0x10FFFF is accepted.
pub utf8_decode_sound :
    (p : List ℕ) (c n : ℕ)
    → utf8_decode p ≡ some (c, n)
    → ((c ≡ 0xFFFD) × (n ≡ 1)) ⊎ ((c < 0x110000) × (take n p ≡ utf8_encode c))
unfolding utf8_decode
utf8_decode_sound [] c n e = ground arith
utf8_decode_sound (b ∷ p) c n e = ground (
  arith,
  encode_one b,
  need1_sound b p c n,
  need2_sound 0xA0 b p c n,
  need2_sound 0x80 b p c n,
  need3_sound 0x90 0xBF b p c n,
  need3_sound 0x80 0x8F b p c n,
  need3_sound 0x80 0xBF b p c n,
)
