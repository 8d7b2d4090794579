-- ===== src/Utf8/Decoding/Agree.antt =====
-- `utf8_scan` and `utf8_decode_buf16` of cutils.c on any bytes, well formed or not.
use substrata_swift.Prelude.{ℕ, zero, suc, ◌+◌, ◌/◌, ◌≤◌, ◌<◌, ◌≡◌, ap, ◌∙◌, arith, leb}
use substrata_swift.Prelude.{some, List, [], ◌∷◌, length, drop, length-drop, All, All-drop}
use substrata_swift.Prelude.{Bool-cases, inl, inr, bit_or}
use substrata_swift.Prelude.Bits.{bit_or_low, bit_or_zero_left}
use substrata_swift.Utf8.Encode.{IsByte}
use substrata_swift.Utf8.Units.{utf16}
use substrata_swift.Utf8.Decoding.{scan_kind, scan_len, scan_loop, utf8_scan, or_bytes}
use substrata_swift.Utf8.Decoding.{put_units, next_code, decode16_loop, utf8_decode_buf16}
use substrata_swift.Utf8.Decoding.Steps.{
  next_code_total, scan_step, decode16_step, scan_len-put_units,
}

-- From the same place both loops end, and they count the same number of units.
loops_agree :
    (f : ℕ) (p : List ℕ) (kind len i : ℕ) (dest : List ℕ)
    → length p ≤ f
    → All IsByte p
    → (m : ℕ) × (kind' : ℕ) × (dest' : List ℕ) × (scan_loop f p kind len ≡ some (kind', len + m))
      × (decode16_loop f dest i p ≡ some (dest', i + m))
loops_agree f [] kind len i dest h k =
    (0, kind, dest, unfold scan_loop in ground arith, unfold decode16_loop in ground arith)
loops_agree zero (b ∷ p) kind len i dest h k = absurd (omega arith)
loops_agree (suc f) (b ∷ p) kind len i dest h k =
    let (c, n, found, low, high) = next_code_total b p k in
    let (m, kind', dest', scanned, decoded) =
      loops_agree f (drop n (b ∷ p)) (scan_kind kind b c n) (scan_len len c) (put_units dest i c).1
        (put_units dest i c).0 (omega (arith, length-drop n (b ∷ p)))
        (All-drop IsByte n (b ∷ p) k) in
    let (counted, stored) = scan_len-put_units len c dest i in
    (
      length (utf16 c) + m,
      kind',
      dest',
      scan_step f b p kind len c n found ∙ scanned ∙ ground (arith, counted),
      decode16_step f dest i (b ∷ p) c n found ∙ decoded ∙ ground (arith, stored),
    )

le-bit_or : (f a b : ℕ) → a ≤ f → (a ≤ bit_or a b) × (b ≤ bit_or a b)
le-bit_or zero zero b h = omega (arith, bit_or_zero_left b)
le-bit_or zero (suc a) b h = absurd (omega arith)
le-bit_or (suc f) zero b h = omega (arith, bit_or_zero_left b)
le-bit_or (suc f) (suc a) b h =
    omega (arith, bit_or_low (suc a) b, le-bit_or f (suc a / 2) (b / 2) (omega arith))

-- A disjunction below 0x80 has only ASCII bytes.
or_bytes_ascii :
    (buf : List ℕ) (cbits : ℕ)
    → or_bytes cbits buf < 0x80
    → (cbits < 0x80) × All (λ b. b < 0x80) buf
unfolding or_bytes
or_bytes_ascii [] cbits h = omega arith
or_bytes_ascii (b ∷ buf) cbits h =
    let (joined, others) = or_bytes_ascii buf (bit_or cbits b) h in
    let (low, high) = le-bit_or cbits cbits b (omega arith) in (omega arith, (omega arith, others))

ascii_count : (dest : List ℕ) (i b : ℕ) → b < 0x80 → (put_units dest i b).1 ≡ i + 1
unfolding put_units
ascii_count dest i b h = ground arith

ascii_code : (b : ℕ) (p : List ℕ) → b < 0x80 → next_code (b ∷ p) ≡ some (b, 1)
unfolding next_code
ascii_code b p h = ground arith

decode16_ascii :
    (p : List ℕ) (dest : List ℕ) (i : ℕ)
    → All (λ b. b < 0x80) p
    → (dest' : List ℕ) × (decode16_loop (length p) dest i p ≡ some (dest', i + length p))
decode16_ascii [] dest i h = (dest, unfold decode16_loop in ground arith)
decode16_ascii (b ∷ p) dest i h =
    let (dest', decoded) = decode16_ascii p (put_units dest i b).0 (put_units dest i b).1 h.1 in
    (
      dest',
      decode16_step (length p) dest i (b ∷ p) b 1 (ascii_code b p h.0)
          ∙ decoded
          ∙ ap (λ (t : ℕ). some (dest', t)) (omega (arith, ascii_count dest i b h.0)),
    )

-- On every buffer of bytes neither function reads past its end, and the length that `utf8_scan`
-- stores through `plen` is the number of units that `utf8_decode_buf16` counts, whatever `dest` is.
pub utf8_scan-decode_buf16 :
    (buf dest : List ℕ)
    → All IsByte buf
    → (kind : ℕ) × (dest' : List ℕ) × (len : ℕ) × (utf8_scan buf ≡ some (kind, len))
      × (utf8_decode_buf16 dest buf ≡ some (dest', len))
utf8_scan-decode_buf16 buf dest h = elim (Bool-cases (leb 0x80 (or_bytes 0 buf))) [
  | inl other ↦
      let (m, kind, dest', scanned, decoded) =
        loops_agree (length buf) buf 1 0 0 dest (omega arith) h in
      (
        kind,
        dest',
        0 + m,
        unfold utf8_scan in rw other scanned,
        unfold utf8_decode_buf16 in decoded,
      )
  | inr ascii ↦
      let (dest', decoded) = decode16_ascii buf dest 0 (or_bytes_ascii buf 0 (ground arith)).1 in
      (
        0,
        dest',
        0 + length buf,
        unfold utf8_scan in rw ascii (ground arith),
        unfold utf8_decode_buf16 in decoded,
      )
]
