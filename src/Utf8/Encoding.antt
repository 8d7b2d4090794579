-- ===== src/Utf8/Encoding.antt =====
-- The functions of Sources/SubstrataQuickJS/cutils.c that encode a whole buffer as UTF-8:
-- `utf8_encode_buf8` and `utf8_encode_buf16`.
-- `src` is the list of what is not yet read; `dest` is the list of its `dest_len` bytes, and is returned
-- with the stores made beside the function's result. `i` is not kept: `i -= 1 + (c > 0xFFFF)` at
-- `overflow` goes back to the unit or the pair whose code point did not fit, which is the list that
-- the round began with.
pub mod Laws
pub mod Fit
pub mod RoundTrip
use substrata_swift.Prelude.{
  ℕ, ◌+◌, ◌/◌, ◌^◌, bit_and, bit_or, ltb, leb, if◌then◌else◌, Bool, ◌&&◌, not,
}
use substrata_swift.Prelude.{Option, none, some, List, [], ◌∷◌, length, set, store}
use substrata_swift.Utf8.{utf8_encode, utf8_encode_len}
use substrata_swift.Utf8.Units.{is_hi_surrogate, is_lo_surrogate, from_surrogate}

-- `if (j < dest_len) dest[j] = '\0';`
unfoldable pub terminate : List ℕ → ℕ → List ℕ
terminate dest j = if ltb j (length dest) then set dest j 0 else dest

-- `while (i < src_len) j += 1 + (src[i++] >= 0x80);`
unfoldable pub encode8_rest : List ℕ → ℕ → ℕ
encode8_rest [] j = j
encode8_rest (c ∷ src) j = encode8_rest src (j + (1 + (if leb 0x80 c then 1 else 0)))

-- One byte of the source; `none` is `goto overflow`.
unfoldable pub encode8_put : ℕ → List ℕ → ℕ → Option (List ℕ × ℕ)
encode8_put c dest j =
    if ltb c 0x80
    then if leb (length dest) (j + 1) then none else some (set dest j c, j + 1)
    else if leb (length dest) (j + 2)
    then none
    else some (
      set (set dest j (bit_or (c / 2 ^ 6) 0xC0)) (j + 1) (bit_or (bit_and c 0x3F) 0x80),
      j + 1 + 1,
    )

unfoldable pub encode8_loop : List ℕ → List ℕ → ℕ → List ℕ × ℕ
encode8_loop [] dest j = (terminate dest j, j)
encode8_loop (c ∷ src) dest j = elim (encode8_put c dest j) [
  | none ↦ (terminate dest j, encode8_rest (c ∷ src) j)
  | some (dest', j') ↦ encode8_loop src dest' j'
]

unfoldable pub utf8_encode_buf8 : List ℕ → List ℕ → List ℕ × ℕ
utf8_encode_buf8 dest src = encode8_loop src dest 0

-- `c >= 0x80 && is_hi_surrogate(c) && i < src_len && is_lo_surrogate(src[i])`, where a unit follows.
unfoldable pub is_pair : ℕ → ℕ → Bool
is_pair c d = not (ltb c 0x80) && (is_hi_surrogate c && is_lo_surrogate d)

-- The loop after `overflow`.
unfoldable pub rest_len : ℕ → ℕ → ℕ
rest_len j c = if ltb c 0x80 then j + 1 else j + utf8_encode_len c

unfoldable pub encode16_rest : List ℕ → ℕ → ℕ
encode16_rest [] j = j
encode16_rest (c ∷ []) j = rest_len j c
encode16_rest (c ∷ d ∷ p) j =
    let joined = encode16_rest p (rest_len j (from_surrogate c d)) in
    let alone = encode16_rest (d ∷ p) (rest_len j c) in if is_pair c d then joined else alone

-- The bytes of one code point; `none` is `goto overflow`.
unfoldable pub encode16_put : ℕ → List ℕ → ℕ → Option (List ℕ × ℕ)
encode16_put c dest j =
    if ltb c 0x80
    then if leb (length dest) (j + 1) then none else some (set dest j c, j + 1)
    else if leb (length dest) (j + utf8_encode_len c)
    then none
    else some (store dest j (utf8_encode c), j + length (utf8_encode c))

unfoldable pub encode16_loop : List ℕ → List ℕ → ℕ → List ℕ × ℕ
encode16_loop [] dest j = (terminate dest j, j)
encode16_loop (c ∷ []) dest j = elim (encode16_put c dest j) [
  | none ↦ (terminate dest j, encode16_rest (c ∷ []) j)
  | some (dest', j') ↦ (terminate dest' j', j')
]
encode16_loop (c ∷ d ∷ p) dest j =
    let joined : List ℕ × ℕ = elim (encode16_put (from_surrogate c d) dest j) [
      | none ↦ (terminate dest j, encode16_rest (c ∷ d ∷ p) j)
      | some (dest', j') ↦ encode16_loop p dest' j'
    ] in
    let alone : List ℕ × ℕ = elim (encode16_put c dest j) [
      | none ↦ (terminate dest j, encode16_rest (c ∷ d ∷ p) j)
      | some (dest', j') ↦ encode16_loop (d ∷ p) dest' j'
    ] in
    if is_pair c d then joined else alone

unfoldable pub utf8_encode_buf16 : List ℕ → List ℕ → List ℕ × ℕ
utf8_encode_buf16 dest src = encode16_loop src dest 0
