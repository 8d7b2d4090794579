-- ===== src/Utf8/Window.antt =====
-- `utf8_decode_len` on the bytes up to the end of a buffer.
use Prim.Native.Nat.{min}
use substrata_swift.Prelude.{ℕ, ◌+◌, ◌/◌, ◌%◌, ◌≤◌, ◌<◌, ◌≡◌, arith}
use substrata_swift.Prelude.{List, [], ◌∷◌, ◌++◌, length, take, All, Option, none, some, ◌⊎◌}
use substrata_swift.Utf8.{utf8_encode, utf8_encode_len, utf8_decode, utf8_decode_len}
use substrata_swift.Utf8.{decode_need1, decode_need2, decode_need3}
use substrata_swift.Utf8.Encode.{standard, utf8_encode-standard, IsByte}
use substrata_swift.Utf8.Decode.{utf8_decode-encode, utf8_decode_sound}

-- A result that reads nothing past the bytes given: what it consumes is there, one byte at least
-- is consumed where there is one, and the code point is in range.
abbrev pub Bounded : List ℕ → Option (ℕ × ℕ) → Type 0
Bounded p none = ⊥
Bounded p (some (c, n)) = (n ≤ length p) × (min 1 (length p) ≤ n) × (c < 0x110000)

pub utf8_decode_len-Bounded : (p : List ℕ) → All IsByte p → Bounded p (utf8_decode_len p)
unfolding utf8_decode_len utf8_decode decode_need1 decode_need2 decode_need3
utf8_decode_len-Bounded [] h = ground arith
utf8_decode_len-Bounded (b ∷ []) h = ground arith
utf8_decode_len-Bounded (b ∷ b1 ∷ []) h = ground arith
utf8_decode_len-Bounded (b ∷ b1 ∷ b2 ∷ []) h = ground arith
utf8_decode_len-Bounded (b ∷ b1 ∷ b2 ∷ b3 ∷ p) h = ground arith

-- Where the bytes that the lead byte announces are there, the two decoders agree.
decode_len-eq-decode :
    (b : ℕ) (p : List ℕ)
    → (0x80 ≤ b → 1 ≤ length p)
    → (0xE0 ≤ b → 2 ≤ length p)
    → (0xF0 ≤ b → 3 ≤ length p)
    → utf8_decode_len (b ∷ p) ≡ utf8_decode (b ∷ p)
unfolding utf8_decode_len
decode_len-eq-decode b [] h1 h2 h3 = ground arith
decode_len-eq-decode b (b1 ∷ []) h1 h2 h3 = ground arith
decode_len-eq-decode b (b1 ∷ b2 ∷ []) h1 h2 h3 = ground arith
decode_len-eq-decode b (b1 ∷ b2 ∷ b3 ∷ p) h1 h2 h3 = ground arith

-- `utf8_decode_len` reads back every code point that `utf8_encode` stored at the front of a buffer.
pub utf8_decode_len-encode :
    (c : ℕ) (rest : List ℕ)
    → c < 0x110000
    → utf8_decode_len (utf8_encode c ++ rest) ≡ some (c, utf8_encode_len c)
unfolding standard
utf8_decode_len-encode c rest h =
    let t1 = 0x80 + c % 64 in
    let t2 = 0x80 + c / 64 % 64 in
    let t3 = 0x80 + c / 4096 % 64 in
    ground (
      arith,
      utf8_encode-standard c,
      utf8_decode-encode c rest h,
      decode_len-eq-decode c rest,
      decode_len-eq-decode (0xC0 + c / 64) (t1 ∷ rest),
      decode_len-eq-decode (0xE0 + c / 4096) (t2 ∷ t1 ∷ rest),
      decode_len-eq-decode (0xF0 + c / 262144) (t3 ∷ t2 ∷ t1 ∷ rest),
    )

-- At the end of a buffer too, the result is exact or U+FFFD after at most one byte.
pub utf8_decode_len_sound :
    (p : List ℕ) (c n : ℕ)
    → utf8_decode_len p ≡ some (c, n)
    → ((c ≡ 0xFFFD) × (n ≤ 1)) ⊎ ((c < 0x110000) × (take n p ≡ utf8_encode c))
unfolding utf8_decode_len
utf8_decode_len_sound [] c n e = ground arith
utf8_decode_len_sound (b ∷ []) c n e = ground (arith, utf8_decode_sound (b ∷ []) c n)
utf8_decode_len_sound (b ∷ b1 ∷ []) c n e = ground (arith, utf8_decode_sound (b ∷ b1 ∷ []) c n)
utf8_decode_len_sound (b ∷ b1 ∷ b2 ∷ []) c n e =
    ground (arith, utf8_decode_sound (b ∷ b1 ∷ b2 ∷ []) c n)
utf8_decode_len_sound (b ∷ b1 ∷ b2 ∷ b3 ∷ p) c n e =
    ground (arith, utf8_decode_sound (b ∷ b1 ∷ b2 ∷ b3 ∷ p) c n)
