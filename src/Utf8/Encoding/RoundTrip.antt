-- ===== src/Utf8/Encoding/RoundTrip.antt =====
-- UTF-16 through UTF-8 and back: `utf8_encode_buf16` and then `utf8_decode_buf16` of cutils.c.
use substrata_swift.Prelude.{ℕ, ◌≤◌, ◌<◌, ◌≡◌, ap, arith, some, List, ◌++◌, length, take, drop, All}
use substrata_swift.Prelude.{take-append_self}
use substrata_swift.Utf8.Units.{IsUnit, code_points}
use substrata_swift.Utf8.Units.{utf16-code_points, code_points-IsCodePoint}
use substrata_swift.Utf8.Decoding.{utf8_decode_buf16}
use substrata_swift.Utf8.Decoding.Whole.{utf8_decode_buf16-encode}
use substrata_swift.Utf8.Encoding.{utf8_encode_buf16}
use substrata_swift.Utf8.Encoding.Laws.{text}
use substrata_swift.Utf8.Encoding.Fit.{utf8_encode_buf16_lem, fit_all, ended}

-- A destination with room for the terminator holds the whole code.
pub stored_whole :
    (dest src : List ℕ)
    → (utf8_encode_buf16 dest src).1 < length dest
    → utf8_encode_buf16 dest src
      ≡ (ended (text (code_points src)) dest, length (text (code_points src)))
stored_whole dest src room =
    let e = utf8_encode_buf16_lem dest src (omega arith) in
    let fits : length (text (code_points src)) < length dest =
      omega (arith, ap (λ (t : List ℕ × ℕ). t.1) e) in
    rw (fit_all (length dest) (code_points src) fits) at e

decode_text :
    (src out : List ℕ)
    → All IsUnit src
    → length src ≤ length out
    → utf8_decode_buf16 out (text (code_points src))
      ≡ some (src ++ drop (length src) out, length src)
unfolding text
decode_text src out units space =
    let joined = utf16-code_points src units in
    rw joined at (
      utf8_decode_buf16-encode (code_points src) out (code_points-IsCodePoint src units)
        (rw joined space))

-- Where the length that `utf8_encode_buf16` returns leaves room for the terminator, decoding as many
-- bytes of its destination gives the units back, lone surrogates included.
pub decode-encode_buf16 :
    (src dest out : List ℕ)
    → All IsUnit src
    → (utf8_encode_buf16 dest src).1 < length dest
    → length src ≤ length out
    → utf8_decode_buf16 out (take (utf8_encode_buf16 dest src).1 (utf8_encode_buf16 dest src).0)
      ≡ some (src ++ drop (length src) out, length src)
decode-encode_buf16 src dest out units room space =
    rw (stored_whole dest src room, take-append_self) (decode_text src out units space)
