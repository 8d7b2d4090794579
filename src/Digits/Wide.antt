-- ===== src/Digits/Wide.antt =====
-- `u64toa` and `i64toa` of cutils.c write the decimal digits of a number.
use substrata_swift.Prelude.{ℕ, ◌+◌, ◌-◌, ◌/◌, ◌%◌, ◌^◌, ◌≤◌, ◌<◌, ◌≡◌, refl, sym, arith}
use substrata_swift.Prelude.{
  ltb, leb, if◌then◌else◌, true, Bool-cases, inl, inr, List, [], ◌∷◌, ◌++◌,
}
use substrata_swift.Prelude.{length, length-append, length-drop, set-end, drop, ltb→lt, leb→le}
use substrata_swift.Digits.{ten_pow_7, u7toa_shift, u64toa_front, u64toa, i64toa}
use substrata_swift.Digits.Laws.{decimal, padded, Written, u7toa_shift-Written}
use substrata_swift.Digits.Decimal.{
  deep, decimal_deep, length-decimal, seven_low, u07toa_shift-Written,
}
use substrata_swift.Digits.Decimal.{minus-Written, u32toa-Written}

seven_low_19 :
    (n : ℕ) → 10000000 ≤ n → decimal 19 n ≡ decimal 12 (n / 10000000) ++ padded 7 (n % 10000000)
unfolding deep
seven_low_19 n h = seven_low 12 n h

seven_low_12 :
    (n : ℕ) → 10000000 ≤ n → decimal 12 n ≡ decimal 5 (n / 10000000) ++ padded 7 (n % 10000000)
unfolding deep
seven_low_12 n h = seven_low 5 n h

u64toa_front-Written :
    (done room : List ℕ) (n1 : ℕ)
    → n1 < 10000000000000
    → 14 ≤ length room
    → Written (u64toa_front (done ++ room) (length done) n1) done room (decimal 12 n1)
unfolding u64toa_front
u64toa_front-Written done room n1 small wide = elim (Bool-cases (leb ten_pow_7 n1)) [
  | inl long ↦
      (let big = leb→le ten_pow_7 n1 long in
        let word : n1 / ten_pow_7 % 2 ^ 32 ≡ n1 / ten_pow_7 = omega arith in
        rw (long, seven_low_12 n1 big, word)
          (u07toa_shift-Written (u7toa_shift (done ++ room) (length done) (n1 / ten_pow_7)) done
            room (decimal 5 (n1 / ten_pow_7)) (n1 % ten_pow_7)
            (rw (sym (decimal_deep 5 6 (n1 / ten_pow_7) (omega arith) (omega arith)))
              (u7toa_shift-Written done room (n1 / ten_pow_7) (omega arith) (omega arith)))
            (omega arith) (omega (arith, length-decimal 5 (n1 / ten_pow_7)))))
  | inr short ↦
      (let few : n1 < 10000000 = ground arith in
        rw (short, decimal_deep 6 12 n1 few (omega arith))
          (u7toa_shift-Written done room n1 few (omega arith)))
]

-- In a block with twenty-one bytes from `at` on, `u64toa` writes there the decimal digits of a 64-bit
-- number and a terminator, returns the number of the digits, and stores nothing before or behind the
-- block.
pub u64toa-Written :
    (done room : List ℕ) (n : ℕ)
    → n < 2 ^ 64
    → 21 ≤ length room
    → Written (u64toa (done ++ room) (length done) n) done room (decimal 19 n)
unfolding u64toa
u64toa-Written done room n small wide = elim (Bool-cases (ltb n 0x100000000)) [
  | inl word ↦
      (let few = ltb→lt n 0x100000000 word in
        rw (word, decimal_deep 9 19 n (omega arith) (omega arith))
          (u32toa-Written done room n (omega arith) (omega arith)))
  | inr more ↦
      (let big : 0x100000000 ≤ n = ground arith in
        let long : leb ten_pow_7 n ≡ true = ground arith in
        rw (more, long, seven_low_19 n (omega arith))
          (u07toa_shift-Written (u64toa_front (done ++ room) (length done) (n / ten_pow_7)) done
            room (decimal 12 (n / ten_pow_7)) (n % ten_pow_7)
            (u64toa_front-Written done room (n / ten_pow_7) (omega arith) (omega arith))
            (omega arith) (omega (arith, length-decimal 12 (n / ten_pow_7)))))
]

-- The digits of the number whose 64-bit pattern is `n`, behind a minus where it is negative.
unfoldable pub signed64 : ℕ → List ℕ
signed64 n = if ltb n (2 ^ 63) then decimal 19 n else 45 ∷ decimal 19 (2 ^ 64 - n)

-- In a block with twenty-two bytes from `at` on, `i64toa` writes there the digits of a number of 64
-- bits in two's complement, behind a minus where it is negative, and a terminator, and returns their
-- number.
pub i64toa-Written :
    (done room : List ℕ) (n : ℕ)
    → n < 2 ^ 64
    → 22 ≤ length room
    → Written (i64toa (done ++ room) (length done) n) done room (signed64 n)
unfolding i64toa signed64
i64toa-Written done room n small wide = elim (Bool-cases (ltb n (2 ^ 63))) [
  | inl plus ↦ rw plus (u64toa-Written done room n small (omega arith))
  | inr minus ↦
      (let least : 2 ^ 63 ≤ n = ground arith in
        let wrap : (2 ^ 64 - n) % 2 ^ 64 ≡ 2 ^ 64 - n = omega arith in
        let next : length done + 1 ≡ length (done ++ (45 ∷ [])) =
          omega (arith, length-append done (45 ∷ [])) in
        rw (minus, wrap, next, set-end done room (length done) 45 refl (omega arith))
          (minus-Written
            (u64toa ((done ++ (45 ∷ [])) ++ drop 1 room) (length (done ++ (45 ∷ []))) (2 ^ 64 - n))
            done room (decimal 19 (2 ^ 64 - n)) (omega arith)
            (u64toa-Written (done ++ (45 ∷ [])) (drop 1 room) (2 ^ 64 - n) (omega arith)
              (omega (arith, length-drop 1 room)))))
]
