-- ===== src/Digits/Tests.antt =====
-- Runs of the integer conversions of cutils.c.
use substrata_swift.Prelude.{ℕ, zero, suc, ◌-◌, ◌^◌, ◌≡◌, refl, List, [], ◌∷◌, take}
use substrata_swift.Digits.{
  gen_digit, u7toa_loop, low_bytes, u7toa_shift, u07toa_loop, u07toa_shift,
}
use substrata_swift.Prelude.{arith}
use substrata_swift.Digits.{u32toa, u64toa_front, u64toa, i32toa}
use substrata_swift.Digits.Laws.{Written}
use substrata_swift.Digits.Decimal.{i32toa-Written, signed}
use substrata_swift.Digits.Radix.{
  digit36, radix_shift, bit_len, fill_loop, fill_shift_loop, radix_by_shift,
}
use substrata_swift.Digits.Radix.{count_loop, radix_by_division, u32toa_radix, u64toa_radix}

abbrev blank : ℕ → List ℕ
blank zero = []
blank (suc n) = 1 ∷ blank n

u32toa_max :
    take 11 (u32toa (blank 11) 0 4294967295).0
    ≡ 52 ∷ 50 ∷ 57 ∷ 52 ∷ 57 ∷ 54 ∷ 55 ∷ 50 ∷ 57 ∷ 53 ∷ 0 ∷ []
unfolding u32toa u7toa_shift u07toa_shift u7toa_loop u07toa_loop low_bytes gen_digit
u32toa_max = refl

i32toa_min : (i32toa (blank 12) 0 (2 ^ 31)).1 ≡ 11
unfolding i32toa u32toa u7toa_shift u07toa_shift u7toa_loop u07toa_loop low_bytes gen_digit
i32toa_min = refl

u64toa_large : (u64toa (blank 21) 0 (2 ^ 64 - 1)).1 ≡ 20
unfolding u64toa u64toa_front u7toa_shift u07toa_shift u7toa_loop u07toa_loop low_bytes gen_digit
u64toa_large = refl

-- 255 in base 16 and in base 3.
hex : take 3 (u32toa_radix (blank 33) 0 255 16).0 ≡ 102 ∷ 102 ∷ 0 ∷ []
unfolding u32toa_radix radix_shift radix_by_shift bit_len fill_shift_loop digit36
hex = refl

ternary : take 7 (u32toa_radix (blank 33) 0 255 3).0 ≡ 49 ∷ 48 ∷ 48 ∷ 49 ∷ 49 ∷ 48 ∷ 0 ∷ []
unfolding u32toa_radix radix_shift radix_by_division count_loop fill_loop digit36
ternary = refl

binary : (u64toa_radix (blank 65) 0 (2 ^ 63) 2).1 ≡ 64
unfolding u64toa_radix radix_shift radix_by_shift bit_len fill_shift_loop digit36
binary = refl

i32toa-Written_example :
    Written (i32toa (7 ∷ blank 12) 1 (2 ^ 32 - 1)) (7 ∷ []) (blank 12) (signed (2 ^ 32 - 1))
i32toa-Written_example = i32toa-Written (7 ∷ []) (blank 12) (2 ^ 32 - 1) (omega arith) (omega arith)
