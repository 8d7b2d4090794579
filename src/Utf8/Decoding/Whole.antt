-- ===== src/Utf8/Decoding/Whole.antt =====
-- Whole buffers of encoded text through the decoders of cutils.c.
use mathlib.Core.Path.{ap₂}
use mathlib.Core.List.{append_assoc, append-nil}
use substrata_swift.Prelude.{ℕ, zero, suc, ◌+◌, ◌≤◌, ◌≡◌, refl, ap, ◌∙◌, arith, some}
use substrata_swift.Prelude.{List, [], ◌∷◌, ◌++◌, length, drop, All, length-append, length-drop}
use substrata_swift.Prelude.{drop-append_self}
use substrata_swift.Utf8.{utf8_encode}
use substrata_swift.Utf8.Encode.{utf8_encode_shape}
use substrata_swift.Utf8.Units.{utf16, flat, IsCodePoint}
use substrata_swift.Utf8.Decoding.{decode16_loop, utf8_decode_buf16}
use substrata_swift.Utf8.Decoding.Steps.{next_code-encode, decode16_step, put_units_end}

-- Dropping what a list and then another take up.
drop_both :
    (xs ys : List ℕ) (rest : List ℕ)
    → drop (length ys) (drop (length xs) rest) ≡ drop (length (xs ++ ys)) rest
drop_both [] ys rest = refl
drop_both (x ∷ xs) [] [] = refl
drop_both (x ∷ xs) (y ∷ ys) [] = refl
drop_both (x ∷ xs) ys (r ∷ rest) = drop_both xs ys rest

-- The loop stores the units of encoded text where the written part of `dest` ends.
decode16_loop-encode :
    (cs : List ℕ) (f : ℕ) (done rest : List ℕ)
    → All IsCodePoint cs
    → length (flat utf8_encode cs) ≤ f
    → length (flat utf16 cs) ≤ length rest
    → decode16_loop f (done ++ rest) (length done) (flat utf8_encode cs)
      ≡ some (
        (done ++ flat utf16 cs) ++ drop (length (flat utf16 cs)) rest,
        length done + length (flat utf16 cs),
      )
unfolding flat
decode16_loop-encode [] f done rest h enough room =
    rw append-nil (unfold decode16_loop in ground arith)
decode16_loop-encode (c ∷ cs) zero done rest h enough room =
    absurd (omega (arith, length-append (utf8_encode c) (flat utf8_encode cs), utf8_encode_shape c))
decode16_loop-encode (c ∷ cs) (suc f) done rest h enough room =
    let u = utf16 c in
    let us = flat utf16 cs in
    let bytes = flat utf8_encode cs in
    decode16_step f (done ++ rest) (length done) (utf8_encode c ++ bytes) c (length (utf8_encode c))
      (next_code-encode c bytes h.0)
    ∙ rw
        (
          put_units_end done rest c (omega (arith, length-append u us)),
          drop-append_self,
          ← length-append,
        )
        (decode16_loop-encode cs f (done ++ u) (drop (length u) rest) h.1
            (omega (arith, length-append (utf8_encode c) bytes, utf8_encode_shape c))
            (omega (arith, length-append u us, length-drop (length u) rest))
          ∙ ap₂ (λ (a : List ℕ) (b : ℕ). some (a, b))
              (ap₂ ◌++◌ (append_assoc done u us) (drop_both u us rest))
              (omega (arith, length-append done u, length-append u us)))

-- Encoded text decodes to its units: they stand at the front of `dest`, whatever followed there is
-- kept, and their number is returned.
pub utf8_decode_buf16-encode :
    (cs dest : List ℕ)
    → All IsCodePoint cs
    → length (flat utf16 cs) ≤ length dest
    → utf8_decode_buf16 dest (flat utf8_encode cs)
      ≡ some (flat utf16 cs ++ drop (length (flat utf16 cs)) dest, length (flat utf16 cs))
unfolding utf8_decode_buf16
utf8_decode_buf16-encode cs dest h room =
    decode16_loop-encode cs (length (flat utf8_encode cs)) [] dest h (omega arith) room
    ∙ ap (λ (t : ℕ). some (flat utf16 cs ++ drop (length (flat utf16 cs)) dest, t)) (omega arith)
