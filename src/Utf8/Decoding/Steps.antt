-- ===== src/Utf8/Decoding/Steps.antt =====
-- One round of the decoding loops of cutils.c.
use substrata_swift.Prelude.{ℕ, suc, ◌+◌, ◌≤◌, ◌<◌, ◌≡◌, refl, ◌∙◌, arith, ltb}
use substrata_swift.Prelude.{Option, none, some, List, [], ◌∷◌, ◌++◌, length, drop, All}
use substrata_swift.Prelude.{length-append, set-end, length-drop, Bool-cases, lt→ltb, inl, inr}
use mathlib.Core.Path.{ap₂}
use mathlib.Core.List.{append_assoc}
use substrata_swift.Utf8.{utf8_encode, utf8_decode_len}
use substrata_swift.Utf8.Encode.{standard, utf8_encode-standard, utf8_encode_shape, IsByte}
use substrata_swift.Utf8.Window.{Bounded, utf8_decode_len-Bounded, utf8_decode_len-encode}
use substrata_swift.Utf8.Units.{utf16, IsCodePoint, get_hi_surrogate, get_lo_surrogate}
use substrata_swift.Utf8.Decoding.{next_code, scan_kind, scan_len, scan_loop, put_at, put_units}
use substrata_swift.Utf8.Decoding.{decode16_loop}

-- Where a byte is left there is a next code point, and it takes one byte at least and none that is
-- not there.
pub next_code_total :
    (b : ℕ) (p : List ℕ)
    → All IsByte (b ∷ p)
    → (c : ℕ) × (n : ℕ) × (next_code (b ∷ p) ≡ some (c, n)) × (1 ≤ n) × (n ≤ length (b ∷ p))
unfolding next_code
next_code_total b p h = elim (Bool-cases (ltb b 0x80)) [
  | inl ascii ↦ (b, 1, rw ascii, omega arith, omega arith)
  | inr other ↦ rw other (known (utf8_decode_len (b ∷ p)) refl (utf8_decode_len-Bounded (b ∷ p) h))
]
  where
    known :
        (r : Option (ℕ × ℕ))
        → utf8_decode_len (b ∷ p) ≡ r
        → Bounded (b ∷ p) r
        → (c : ℕ) × (n : ℕ) × (utf8_decode_len (b ∷ p) ≡ some (c, n))
          × (1 ≤ n)
          × (n ≤ length (b ∷ p))
    known none e bound = absurd bound
    known (some (c, n)) e bound = (c, n, e, omega arith, omega arith)

-- The next code point of encoded text is the one that was encoded.
pub next_code-encode :
    (c : ℕ) (rest : List ℕ)
    → IsCodePoint c
    → next_code (utf8_encode c ++ rest) ≡ some (c, length (utf8_encode c))
unfolding next_code standard
next_code-encode c rest h =
    ground (arith, utf8_encode-standard c, utf8_decode_len-encode c rest h, utf8_encode_shape c)

pub scan_step :
    (f : ℕ) (b : ℕ) (p : List ℕ) (kind len c n : ℕ)
    → next_code (b ∷ p) ≡ some (c, n)
    → scan_loop (suc f) (b ∷ p) kind len
      ≡ scan_loop f (drop n (b ∷ p)) (scan_kind kind b c n) (scan_len len c)
unfolding scan_loop
scan_step f b p kind len c n e = rw e

pub decode16_step :
    (f : ℕ) (dest : List ℕ) (i : ℕ) (p : List ℕ) (c n : ℕ)
    → next_code p ≡ some (c, n)
    → decode16_loop (suc f) dest i p
      ≡ decode16_loop f (put_units dest i c).0 (put_units dest i c).1 (drop n p)
unfolding decode16_loop
decode16_step f dest i [] c n e = unfold next_code in cc
decode16_step f dest i (b ∷ p) c n e = rw e

-- Both loops count the units of a code point alike.
pub scan_len-put_units :
    (len c : ℕ) (dest : List ℕ) (i : ℕ)
    → (scan_len len c ≡ len + length (utf16 c)) × ((put_units dest i c).1 ≡ i + length (utf16 c))
unfolding scan_len put_units utf16
scan_len-put_units len c dest i = ground arith

pub put_at_end :
    (done rest : List ℕ) (j v : ℕ)
    → j ≡ length done
    → 0 < length rest
    → put_at (done ++ rest) j v ≡ (done ++ (v ∷ [])) ++ drop 1 rest
unfolding put_at
put_at_end done rest j v e h =
    rw (lt→ltb j (length (done ++ rest)) (omega (arith, length-append done rest)))
      (set-end done rest j v e h)

put_twice_end :
    (done rest : List ℕ) (v w : ℕ)
    → 2 ≤ length rest
    → put_at (put_at (done ++ rest) (length done) v) (length done + 1) w
      ≡ (done ++ (v ∷ w ∷ [])) ++ drop 2 rest
put_twice_end done rest v w h = rw (put_at_end done rest (length done) v refl (omega arith)) (
    put_at_end (done ++ (v ∷ [])) (drop 1 rest) (length done + 1) w
      (omega (arith, length-append done (v ∷ []))) (omega (arith, length-drop 1 rest))
    ∙ ap₂ ◌++◌ (append_assoc done (v ∷ []) (w ∷ [])) (drop_drop rest))
  where
    drop_drop : (r : List ℕ) → drop 1 (drop 1 r) ≡ drop 2 r
    drop_drop [] = refl
    drop_drop (x ∷ []) = refl
    drop_drop (x ∷ y ∷ r) = refl

-- The units of a code point are stored where the written part of `dest` ends.
pub put_units_end :
    (done rest : List ℕ) (c : ℕ)
    → length (utf16 c) ≤ length rest
    → put_units (done ++ rest) (length done) c
      ≡ ((done ++ utf16 c) ++ drop (length (utf16 c)) rest, length done + length (utf16 c))
unfolding put_units utf16
put_units_end done rest c h = ground (
  arith,
  put_at_end done rest (length done) c,
  put_twice_end done rest (get_hi_surrogate c) (get_lo_surrogate c),
)
