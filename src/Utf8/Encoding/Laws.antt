-- ===== src/Utf8/Encoding/Laws.antt =====
-- What the encoders of cutils.c store and return, for every destination.
use mathlib.Core.List.{append-nil}
use substrata_swift.Prelude.{ℕ, ◌+◌, ◌≡◌, refl, ap, arith, none, some}
use substrata_swift.Prelude.{List, [], ◌∷◌, length, length-append}
use substrata_swift.Prelude.{Option-cases, inl, inr, ◌&&◌, Bool-cases}
use substrata_swift.Utf8.{utf8_encode, utf8_encode_len}
use substrata_swift.Utf8.Encode.{utf8_encode_shape}
use substrata_swift.Utf8.Units.{flat, code_points, is_hi_surrogate, is_lo_surrogate, from_surrogate}
use substrata_swift.Utf8.Encoding.{terminate, is_pair, rest_len, encode16_rest, encode16_put}
use substrata_swift.Utf8.Encoding.{encode16_loop}

-- The code of a list of code points.
unfoldable pub text : List ℕ → List ℕ
text cs = flat utf8_encode cs

rest_len_lem : (j c : ℕ) → rest_len j c ≡ j + length (utf8_encode c)
unfolding rest_len utf8_encode_len
rest_len_lem j c = ground (arith, utf8_encode_shape c)

-- A unit below 0x80 is no high surrogate, so the pairs are those of `code_points`.
is_pair_lem : (c d : ℕ) → is_pair c d ≡ (is_hi_surrogate c && is_lo_surrogate d)
unfolding is_pair is_hi_surrogate
is_pair_lem c d = ground arith

encode16_rest_lem :
    (src : List ℕ) (j : ℕ) → encode16_rest src j ≡ j + length (text (code_points src))
unfolding encode16_rest text flat code_points
encode16_rest_lem [] j = omega arith
encode16_rest_lem (c ∷ []) j = ground (arith, rest_len_lem j c, append-nil (utf8_encode c))
encode16_rest_lem (c ∷ d ∷ p) j =
    let both = from_surrogate c d in
    ground (
      arith,
      is_pair_lem c d,
      rest_len_lem j both,
      rest_len_lem j c,
      encode16_rest_lem p (rest_len j both),
      encode16_rest_lem (d ∷ p) (rest_len j c),
      length-append (utf8_encode both) (flat utf8_encode (code_points p)),
      length-append (utf8_encode c) (flat utf8_encode (code_points (d ∷ p))),
    )

-- The loop over code points that `encode16_loop` is.
unfoldable pub codes_loop : List ℕ → List ℕ → ℕ → List ℕ × ℕ
codes_loop [] dest j = (terminate dest j, j)
codes_loop (c ∷ cs) dest j = elim (encode16_put c dest j) [
  | none ↦ (terminate dest j, j + length (text (c ∷ cs)))
  | some (dest', j') ↦ codes_loop cs dest' j'
]

-- A round that continues as the loop over code points does.
round_codes :
    (c : ℕ) (cs dest : List ℕ) (j n : ℕ) (more : List ℕ → ℕ → List ℕ × ℕ)
    → n ≡ j + length (text (c ∷ cs))
    → ((d : List ℕ) (k : ℕ) → more d k ≡ codes_loop cs d k)
    → (let out : List ℕ × ℕ = elim (encode16_put c dest j) [
      | none ↦ (terminate dest j, n)
      | some (dest', j') ↦ more dest' j'
    ] in
        out)
      ≡ codes_loop (c ∷ cs) dest j
unfolding codes_loop
round_codes c cs dest j n more e h = elim (Option-cases (encode16_put c dest j)) [
  | inl full ↦ rw (full, codes_loop) (ap (λ (t : ℕ). (terminate dest j, t)) e)
  | inr ((dest', j'), fits) ↦ rw (fits, codes_loop) (h dest' j')
]

pub encode16_loop-codes :
    (src dest : List ℕ) (j : ℕ) → encode16_loop src dest j ≡ codes_loop (code_points src) dest j
unfolding encode16_loop code_points
encode16_loop-codes [] dest j = unfold codes_loop in refl
encode16_loop-codes (c ∷ []) dest j =
    round_codes c [] dest j (encode16_rest (c ∷ []) j) (λ d k. (terminate d k, k))
      (encode16_rest_lem (c ∷ []) j) (λ d k. unfold codes_loop in refl)
encode16_loop-codes (c ∷ d ∷ p) dest j =
    elim (Bool-cases (is_hi_surrogate c && is_lo_surrogate d)) [
      | inl pair ↦
          rw (pair, is_pair_lem c d, pair)
            (round_codes (from_surrogate c d) (code_points p) dest j (encode16_rest (c ∷ d ∷ p) j)
              (encode16_loop p) (rw pair at (encode16_rest_lem (c ∷ d ∷ p) j))
              (encode16_loop-codes p))
      | inr single ↦
          rw (single, is_pair_lem c d, single)
            (round_codes c (code_points (d ∷ p)) dest j (encode16_rest (c ∷ d ∷ p) j)
              (encode16_loop (d ∷ p)) (rw single at (encode16_rest_lem (c ∷ d ∷ p) j))
              (encode16_loop-codes (d ∷ p)))
    ]
