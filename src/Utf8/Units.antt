-- ===== src/Utf8/Units.antt =====
-- UTF-16 code units: the surrogate functions of Sources/SubstrataQuickJS/include/cutils.h, and the
-- two views between units and code points that the buffer functions walk through.
use substrata_swift.Prelude.{ℕ, ◌+◌, ◌-◌, ◌*◌, ◌/◌, ◌%◌, ◌^◌, ◌≤◌, ◌<◌, bit_and, bit_or, ◌≡◌, refl}
use substrata_swift.Prelude.{
  arith, Bool, true, ◌&&◌, ltb, ◌==◌, if◌then◌else◌, List, [], ◌∷◌, ◌++◌, All,
}
use substrata_swift.Prelude.Bits.{bit_and_mask, bit_or_low_field}

unfoldable pub is_surrogate : ℕ → Bool
is_surrogate c = c / 2 ^ 11 == 0xD800 / 2 ^ 11

unfoldable pub is_hi_surrogate : ℕ → Bool
is_hi_surrogate c = c / 2 ^ 10 == 0xD800 / 2 ^ 10

unfoldable pub is_lo_surrogate : ℕ → Bool
is_lo_surrogate c = c / 2 ^ 10 == 0xDC00 / 2 ^ 10

-- `uint32_t` subtraction of 0x40 wraps below 0x10000.
unfoldable pub get_hi_surrogate : ℕ → ℕ
get_hi_surrogate c = ((c / 2 ^ 10 + 2 ^ 32 - 0x10000 / 2 ^ 10) % 2 ^ 32 + 0xD800) % 2 ^ 32

unfoldable pub get_lo_surrogate : ℕ → ℕ
get_lo_surrogate c = bit_or (bit_and c 0x3FF) 0xDC00

unfoldable pub from_surrogate : ℕ → ℕ → ℕ
from_surrogate hi lo = 65536 + 1024 * bit_and hi 1023 + bit_and lo 1023

abbrev pub IsUnit : ℕ → Type 0
IsUnit u = u < 0x10000

abbrev pub IsCodePoint : ℕ → Type 0
IsCodePoint c = c < 0x110000

low10 : (c : ℕ) → bit_and c 0x3FF ≡ c % 1024
low10 c = bit_and_mask 10 c

lo_field : (x : ℕ) → x < 1024 → bit_or x 0xDC00 ≡ 0xDC00 + x
lo_field x h = bit_or_low_field 10 55 x h

-- Splitting a code point above 0xFFFF gives a high and a low surrogate, and joining them gives
-- the code point back.
pub from_surrogate-get :
    (c : ℕ)
    → 0x10000 ≤ c
    → IsCodePoint c
    → (is_hi_surrogate (get_hi_surrogate c) ≡ true)
      × (is_lo_surrogate (get_lo_surrogate c) ≡ true)
      × (from_surrogate (get_hi_surrogate c) (get_lo_surrogate c) ≡ c)
unfolding is_hi_surrogate is_lo_surrogate get_hi_surrogate get_lo_surrogate from_surrogate
from_surrogate-get c h k = ground (
  arith,
  low10 c,
  lo_field (c % 1024),
  low10 (0xDC00 + c % 1024),
  low10 ((c / 2 ^ 10 + 2 ^ 32 - 0x10000 / 2 ^ 10) % 2 ^ 32 + 0xD800),
  low10 (((c / 2 ^ 10 + 2 ^ 32 - 0x10000 / 2 ^ 10) % 2 ^ 32 + 0xD800) % 2 ^ 32),
)

-- Joining a high and a low surrogate gives a code point above 0xFFFF, which splits into them.
pub get-from_surrogate :
    (hi lo : ℕ)
    → is_hi_surrogate hi ≡ true
    → is_lo_surrogate lo ≡ true
    → (0x10000 ≤ from_surrogate hi lo)
      × (from_surrogate hi lo < 0x110000)
      × (get_hi_surrogate (from_surrogate hi lo) ≡ hi)
      × (get_lo_surrogate (from_surrogate hi lo) ≡ lo)
unfolding is_hi_surrogate is_lo_surrogate get_hi_surrogate get_lo_surrogate from_surrogate
get-from_surrogate hi lo h k = ground (
  arith,
  low10 hi,
  low10 lo,
  low10 (65536 + 1024 * bit_and hi 1023 + bit_and lo 1023),
  lo_field (lo % 1024),
)

-- The units of one code point.
unfoldable pub utf16 : ℕ → List ℕ
utf16 c = if ltb 0xFFFF c then get_hi_surrogate c ∷ get_lo_surrogate c ∷ [] else c ∷ []

-- The code points of a run of units: a high and a low surrogate next to each other are one, and
-- any other unit stands for itself.
unfoldable pub code_points : List ℕ → List ℕ
code_points [] = []
code_points (c ∷ []) = c ∷ []
code_points (c ∷ d ∷ p) =
    let joined = from_surrogate c d ∷ code_points p in
    let alone = c ∷ code_points (d ∷ p) in
    if is_hi_surrogate c && is_lo_surrogate d then joined else alone

unfoldable pub flat {ℓ κ} : {A : Type ℓ} {B : Type κ} → (A → List B) → List A → List B
flat f [] = []
flat f (x ∷ xs) = f x ++ flat f xs

-- Splitting the code points of a run of units gives the run back.
pub utf16-code_points : (p : List ℕ) → All IsUnit p → flat utf16 (code_points p) ≡ p
unfolding flat utf16 code_points
utf16-code_points [] h = refl
utf16-code_points (c ∷ []) h = ground arith
utf16-code_points (c ∷ d ∷ p) h =
    ground (arith, get-from_surrogate c d, utf16-code_points p h.1.1, utf16-code_points (d ∷ p) h.1)

pub code_points-IsCodePoint : (p : List ℕ) → All IsUnit p → All IsCodePoint (code_points p)
unfolding code_points
code_points-IsCodePoint [] h = tt
code_points-IsCodePoint (c ∷ []) h = ground arith
code_points-IsCodePoint (c ∷ d ∷ p) h = ground (
  arith,
  get-from_surrogate c d,
  code_points-IsCodePoint p h.1.1,
  code_points-IsCodePoint (d ∷ p) h.1,
)
