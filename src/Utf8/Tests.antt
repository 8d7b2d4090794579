-- ===== src/Utf8/Tests.antt =====
-- Runs of the UTF-8 functions of cutils.c, and their theorems at concrete inputs.
use substrata_swift.Prelude.{ℕ, ◌≤◌, ◌<◌, ◌≡◌, ◌⊎◌, refl, arith, some, true, List, [], ◌∷◌, ◌++◌}
use substrata_swift.Prelude.{length, take, All}
use substrata_swift.Utf8.{utf8_encode, utf8_encode_len, utf8_decode}
use substrata_swift.Utf8.{decode_need1}
use substrata_swift.Utf8.Encode.{utf8_encode_shape, IsByte}
use substrata_swift.Utf8.Decode.{utf8_decode_sound}
use substrata_swift.Utf8.Units.{utf16, flat, code_points}
use substrata_swift.Utf8.Units.{is_hi_surrogate, is_lo_surrogate, from_surrogate}
use substrata_swift.Utf8.Latin.{decode-encode_buf8}
use substrata_swift.Utf8.Decoding.{utf8_decode_buf8}
use substrata_swift.Utf8.Encoding.{utf8_encode_buf8, encode8_loop, encode8_put, terminate}
use substrata_swift.Utf8.Decoding.{utf8_scan, utf8_decode_buf16}
use substrata_swift.Utf8.Decoding.Agree.{utf8_scan-decode_buf16}
use substrata_swift.Utf8.Encoding.{
  encode16_loop, encode16_put, terminate, is_pair, utf8_encode_buf16,
}
use substrata_swift.Utf8.Encoding.Laws.{text}
use substrata_swift.Utf8.Encoding.Fit.{fit, ended, utf8_encode_buf16_lem}
use substrata_swift.Utf8.Encoding.RoundTrip.{decode-encode_buf16}

-- "a", U+1F600 as a pair, and a lone high surrogate.
abbrev units : List ℕ
units = 0x61 ∷ 0xD83D ∷ 0xDE00 ∷ 0xD800 ∷ []

abbrev zeros : List ℕ
zeros = 0 ∷ 0 ∷ 0 ∷ 0 ∷ 0 ∷ 0 ∷ 0 ∷ 0 ∷ 0 ∷ 0 ∷ []

encoded_units :
    utf8_encode_buf16 zeros units
    ≡ (0x61 ∷ 0xF0 ∷ 0x9F ∷ 0x98 ∷ 0x80 ∷ 0xED ∷ 0xA0 ∷ 0x80 ∷ 0 ∷ 0 ∷ [], 8)
unfolding utf8_encode_buf16 encode16_loop encode16_put terminate is_pair is_hi_surrogate
    is_lo_surrogate from_surrogate utf8_encode utf8_encode_len
encoded_units = refl

room_for_units : (utf8_encode_buf16 zeros units).1 < 10
unfolding utf8_encode_buf16 encode16_loop encode16_put terminate is_pair is_hi_surrogate
    is_lo_surrogate from_surrogate utf8_encode utf8_encode_len
room_for_units = omega arith

decode-encode_buf16_example :
    utf8_decode_buf16
      (9 ∷ 9 ∷ 9 ∷ 9 ∷ 9 ∷ [])
      (take (utf8_encode_buf16 zeros units).1 (utf8_encode_buf16 zeros units).0)
    ≡ some (units ++ (9 ∷ []), 4)
decode-encode_buf16_example =
    decode-encode_buf16 units zeros (9 ∷ 9 ∷ 9 ∷ 9 ∷ 9 ∷ []) (omega arith) room_for_units
      (omega arith)

-- Two bytes do not hold the pair: "a" alone is stored, and the result is the full length.
utf8_encode_buf16_example :
    utf8_encode_buf16 (7 ∷ 7 ∷ 7 ∷ []) units
    ≡ (ended (text (fit 3 (code_points units))) (7 ∷ 7 ∷ 7 ∷ []), length (text (code_points units)))
utf8_encode_buf16_example = utf8_encode_buf16_lem (7 ∷ 7 ∷ 7 ∷ []) units (omega arith)

utf8_scan-decode_buf16_example :
    (kind : ℕ) × (dest' : List ℕ) × (len : ℕ) × (utf8_scan (0x61 ∷ 0xC3 ∷ 0xE9 ∷ [])
      ≡ some (kind, len))
    × (utf8_decode_buf16 zeros (0x61 ∷ 0xC3 ∷ 0xE9 ∷ []) ≡ some (dest', len))
utf8_scan-decode_buf16_example =
    utf8_scan-decode_buf16 (0x61 ∷ 0xC3 ∷ 0xE9 ∷ []) zeros (omega arith)

decoded_e : utf8_decode (0xC3 ∷ 0xA9 ∷ 0x61 ∷ []) ≡ some (0xE9, 2)
unfolding utf8_decode decode_need1
decoded_e = refl

utf8_decode_sound_example :
    ((◌≡◌ {A = ℕ} 0xE9 0xFFFD) × (◌≡◌ {A = ℕ} 2 1))
    ⊎ ((0xE9 < 0x110000) × (take 2 (0xC3 ∷ 0xA9 ∷ 0x61 ∷ []) ≡ utf8_encode 0xE9))
utf8_decode_sound_example = utf8_decode_sound (0xC3 ∷ 0xA9 ∷ 0x61 ∷ []) 0xE9 2 decoded_e

-- A lead byte of three at the end of the buffer.

units_of_text : length (flat utf16 (0x61 ∷ 0x1F600 ∷ [])) ≤ length zeros
unfolding flat utf16
units_of_text = omega arith

utf8_encode_shape_example :
    All IsByte (utf8_encode 0x1F600)
    × (length (utf8_encode 0x1F600) ≡ utf8_encode_len 0x1F600)
    × (1 ≤ utf8_encode_len 0x1F600)
    × (utf8_encode_len 0x1F600 ≤ 4)
utf8_encode_shape_example = utf8_encode_shape 0x1F600

hi_unit : is_hi_surrogate 0xD83D ≡ true
unfolding is_hi_surrogate
hi_unit = refl

lo_unit : is_lo_surrogate 0xDE00 ≡ true
unfolding is_lo_surrogate
lo_unit = refl

abbrev latin : List ℕ
latin = 97 ∷ 233 ∷ []

abbrev seven_bytes : List ℕ
seven_bytes = 9 ∷ 9 ∷ 9 ∷ 9 ∷ 9 ∷ 9 ∷ 9 ∷ []

latin_coded : utf8_encode_buf8 seven_bytes latin ≡ (97 ∷ 195 ∷ 169 ∷ 0 ∷ 9 ∷ 9 ∷ 9 ∷ [], 3)
unfolding utf8_encode_buf8 encode8_loop encode8_put terminate
latin_coded = refl

decode-encode_buf8_example :
    utf8_decode_buf8
      (7 ∷ 7 ∷ 7 ∷ 7 ∷ [])
      (take (utf8_encode_buf8 seven_bytes latin).1 (utf8_encode_buf8 seven_bytes latin).0)
    ≡ some (97 ∷ 233 ∷ 0 ∷ 7 ∷ [], 2)
decode-encode_buf8_example =
    decode-encode_buf8 latin seven_bytes (7 ∷ 7 ∷ 7 ∷ 7 ∷ []) (omega arith, (omega arith, tt))
      (rw latin_coded (omega arith)) (omega arith)
