-- ===== src/Utf8/Latin.antt =====
-- The Latin-1 pair of cutils.c: `utf8_encode_buf8` and `utf8_decode_buf8`.
use mathlib.Core.Path.{ap₂}
use mathlib.Core.List.{append_assoc, append-nil}
use substrata_swift.Prelude.{ℕ, zero, suc, ◌+◌, ◌/◌, ◌<◌, ◌≤◌, ◌≡◌, refl, sym, ap, ◌∙◌, arith}
use substrata_swift.Prelude.{some, lt→ltb, List, [], ◌∷◌, ◌++◌, length, drop, take, All}
use substrata_swift.Prelude.{
  length-append, length-drop, take-append_self, set-end, Option-cases, inl, inr,
}
use substrata_swift.Utf8.{utf8_encode, utf8_encode_len}
use substrata_swift.Utf8.Encode.{IsByte, lead2, tail_byte}
use substrata_swift.Utf8.Units.{flat, code_points, is_hi_surrogate}
use substrata_swift.Utf8.Decoding.{put_at, decode8_loop, terminate8, utf8_decode_buf8}
use substrata_swift.Utf8.Decoding.Steps.{put_at_end}
use substrata_swift.Utf8.Encoding.{
  terminate, encode8_put, encode8_rest, encode8_loop, utf8_encode_buf8,
}
use substrata_swift.Utf8.Encoding.{encode16_put, utf8_encode_buf16}
use substrata_swift.Utf8.Encoding.Laws.{text, codes_loop, encode16_loop-codes}
use substrata_swift.Utf8.Encoding.Fit.{ended}
use substrata_swift.Utf8.Encoding.RoundTrip.{stored_whole}

code_points_bytes : (src : List ℕ) → All IsByte src → code_points src ≡ src
unfolding code_points is_hi_surrogate
code_points_bytes [] h = refl
code_points_bytes (c ∷ []) h = refl
code_points_bytes (c ∷ d ∷ p) h = ground (arith, code_points_bytes (d ∷ p) h.1)

put_byte : (c : ℕ) (dest : List ℕ) (j : ℕ) → c < 256 → encode8_put c dest j ≡ encode16_put c dest j
unfolding encode8_put encode16_put utf8_encode utf8_encode_len
put_byte c dest j h = ground arith

encode8_rest_lem :
    (src : List ℕ) (j : ℕ) → All IsByte src → encode8_rest src j ≡ j + length (text src)
unfolding encode8_rest text flat utf8_encode
encode8_rest_lem [] j h = omega arith
encode8_rest_lem (c ∷ src) j h =
    ground (arith, encode8_rest_lem src (j + 1) h.1, encode8_rest_lem src (j + 2) h.1)

encode8_loop-codes :
    (src dest : List ℕ) (j : ℕ) → All IsByte src → encode8_loop src dest j ≡ codes_loop src dest j
unfolding encode8_loop codes_loop
encode8_loop-codes [] dest j h = refl
encode8_loop-codes (c ∷ src) dest j h = elim (Option-cases (encode16_put c dest j)) [
  | inl full ↦
      rw (put_byte c dest j h.0, encode8_loop, full, codes_loop)
        (ap (λ (n : ℕ). (terminate dest j, n)) (encode8_rest_lem (c ∷ src) j h))
  | inr ((dest', j'), fits) ↦
      rw (put_byte c dest j h.0, encode8_loop, fits, codes_loop)
        (encode8_loop-codes src dest' j' h.1)
]

-- On bytes, as Latin-1, `utf8_encode_buf8` does and returns what `utf8_encode_buf16` does on the same
-- units, for every destination.
pub utf8_encode_buf8-buf16 :
    (dest src : List ℕ) → All IsByte src → utf8_encode_buf8 dest src ≡ utf8_encode_buf16 dest src
unfolding utf8_encode_buf8 utf8_encode_buf16
utf8_encode_buf8-buf16 dest src h =
    encode8_loop-codes src dest 0 h
    ∙ sym (encode16_loop-codes src dest 0 ∙ ap (λ t. codes_loop t dest 0) (code_points_bytes src h))

-- One round reads back the one or two bytes of a Latin-1 byte.
decode8_step :
    (c : ℕ) (p dest : List ℕ) (i : ℕ)
    → c < 256
    → decode8_loop dest i (utf8_encode c ++ p) ≡ decode8_loop (put_at dest i c) (i + 1) p
unfolding decode8_loop utf8_encode
decode8_step c [] dest i h = ground (arith, lead2 (c / 64), tail_byte c)
decode8_step c (b ∷ p) dest i h = ground (arith, lead2 (c / 64), tail_byte c)

decode8_loop-text :
    (src done rest : List ℕ)
    → All IsByte src
    → length src ≤ length rest
    → decode8_loop (done ++ rest) (length done) (text src)
      ≡ some ((done ++ src) ++ drop (length src) rest, length done + length src)
unfolding text flat
decode8_loop-text [] done rest h room = rw append-nil (unfold decode8_loop in ground arith)
decode8_loop-text (c ∷ src) done [] h room = absurd (omega arith)
decode8_loop-text (c ∷ src) done (r ∷ rest) h room =
    decode8_step c (flat utf8_encode src) (done ++ (r ∷ rest)) (length done) h.0
    ∙ rw
        (
          put_at_end done (r ∷ rest) (length done) c refl (omega arith),
          ← length-append done (c ∷ []),
        )
        (decode8_loop-text src (done ++ (c ∷ [])) rest h.1 (omega arith)
          ∙ ap₂ (λ (a : List ℕ) (n : ℕ). some (a ++ drop (length src) rest, n))
              (append_assoc done (c ∷ []) src) (omega (arith, length-append done (c ∷ []))))

terminate8_end :
    (src rest : List ℕ)
    → 0 < length rest
    → terminate8 (src ++ rest) (length src) ≡ src ++ (0 ∷ drop 1 rest)
unfolding terminate8
terminate8_end src rest h =
    rw (lt→ltb (length src) (length (src ++ rest)) (omega (arith, length-append src rest)))
      (set-end src rest (length src) 0 refl h ∙ append_assoc src (0 ∷ []) (drop 1 rest))

drop_next : (n : ℕ) (xs : List ℕ) → drop 1 (drop n xs) ≡ drop (suc n) xs
drop_next zero xs = refl
drop_next (suc n) [] = refl
drop_next (suc n) (x ∷ xs) = drop_next n xs

utf8_decode_buf8-text :
    (src out : List ℕ)
    → All IsByte src
    → length src < length out
    → utf8_decode_buf8 out (text src) ≡ some (ended src out, length src)
unfolding utf8_decode_buf8
utf8_decode_buf8-text src out bytes space =
    let ran : decode8_loop out 0 (text src) ≡ some (src ++ drop (length src) out, length src) =
      decode8_loop-text src [] out bytes (omega arith)
      ∙ ap (λ (n : ℕ). some (src ++ drop (length src) out, n)) (omega arith) in
    let stored =
      terminate8_end src (drop (length src) out) (omega (arith, length-drop (length src) out)) in
    rw (ran, stored, drop_next) refl

-- Where the length that `utf8_encode_buf8` returns leaves room for its terminator, decoding as many
-- bytes of its destination into a block with room for one more byte than the source gives the source
-- back, with a terminator, and keeps what is behind it.
pub decode-encode_buf8 :
    (src dest out : List ℕ)
    → All IsByte src
    → (utf8_encode_buf8 dest src).1 < length dest
    → length src < length out
    → utf8_decode_buf8 out (take (utf8_encode_buf8 dest src).1 (utf8_encode_buf8 dest src).0)
      ≡ some (ended src out, length src)
decode-encode_buf8 src dest out bytes room space =
    let same = utf8_encode_buf8-buf16 dest src bytes in
    let whole = stored_whole dest src (rw same at room) in
    let bytes_of : utf8_encode_buf8 dest src ≡ (ended (text src) dest, length (text src)) =
      same
      ∙ whole
      ∙ ap (λ t. (ended (text t) dest, length (text t))) (code_points_bytes src bytes) in
    rw (bytes_of, take-append_self) (utf8_decode_buf8-text src out bytes space)
