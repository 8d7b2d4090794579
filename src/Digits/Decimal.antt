-- ===== src/Digits/Decimal.antt =====
-- `u32toa` and `i32toa` of cutils.c write the decimal digits of a number.
use mathlib.Core.List.{append_assoc, append-nil}
use substrata_swift.Prelude.{
  ℕ, zero, suc, ◌+◌, ◌-◌, ◌/◌, ◌%◌, ◌^◌, ◌≤◌, ◌<◌, ◌≡◌, refl, sym, ap, ◌∙◌, arith,
}
use substrata_swift.Prelude.{
  ltb, leb, if◌then◌else◌, true, false, Bool-cases, inl, inr, List, [], ◌∷◌, ◌++◌,
}
use substrata_swift.Prelude.{
  length, length-append, length-drop, set-end, store, drop, ltb→lt, leb→le,
}
use substrata_swift.Digits.{ten_pow_7, u7toa_shift, u07toa_shift, u32toa, i32toa}
use substrata_swift.Digits.Laws.{
  decimal, padded, Written, put-Written, u07toa_loop_lem, u7toa_shift-Written,
}

pub decimal_deep : (k j n : ℕ) → n < 10 ^ suc k → k ≤ j → decimal j n ≡ decimal k n
unfolding decimal
decimal_deep zero zero n h l = refl
decimal_deep zero (suc j) n h l = let single : leb 10 n ≡ false = ground arith in rw single refl
decimal_deep (suc k) zero n h l = absurd (omega arith)
decimal_deep (suc k) (suc j) n h l =
    ap (λ t. if leb 10 n then t ++ ((48 + n % 10) ∷ []) else (48 + n) ∷ [])
      (decimal_deep k j (n / 10) (omega arith) (omega arith))

pub length-decimal : (k n : ℕ) → length (decimal k n) ≤ suc k
unfolding decimal
length-decimal zero n = omega arith
length-decimal (suc k) n =
    ground
      (arith, length-decimal k (n / 10), length-append (decimal k (n / 10)) ((48 + n % 10) ∷ []))

-- `j` times divided by ten.
unfoldable pub chop : ℕ → ℕ → ℕ
chop zero n = n
chop (suc j) n = chop j (n / 10)

unfoldable pub deep : ℕ → ℕ → ℕ
deep zero k = k
deep (suc j) k = suc (deep j k)

power_positive : (j : ℕ) → 1 ≤ 10 ^ j
power_positive zero = omega arith
power_positive (suc j) = omega (arith, power_positive j)

decimal_split : (j k n : ℕ) → 10 ^ j ≤ n → decimal (deep j k) n ≡ decimal k (chop j n) ++ padded j n
unfolding decimal padded chop deep
decimal_split zero k n h = sym (append-nil (decimal k n))
decimal_split (suc j) k n h =
    let big : leb 10 n ≡ true = ground (arith, power_positive j) in
    rw big (
      ap (λ t. t ++ ((48 + n % 10) ∷ [])) (decimal_split j k (n / 10) (omega arith))
      ∙ append_assoc (decimal k (chop j (n / 10))) (padded j (n / 10)) ((48 + n % 10) ∷ []))

padded_low : (n : ℕ) → padded 7 (n % 10000000) ≡ padded 7 n
unfolding padded
padded_low n = ground arith

pub seven_low :
    (k n : ℕ)
    → 10000000 ≤ n
    → decimal (deep 7 k) n ≡ decimal k (n / 10000000) ++ padded 7 (n % 10000000)
unfolding chop
seven_low k n h =
    let cut : chop 7 n ≡ n / 10000000 = omega arith in
    decimal_split 7 k n (omega arith)
    ∙ ap (λ t. decimal k t ++ padded 7 n) cut
    ∙ ap (λ t. decimal k (n / 10000000) ++ t) (sym (padded_low n))

length-padded : (j n : ℕ) → length (padded j n) ≡ j
unfolding padded
length-padded zero n = refl
length-padded (suc j) n =
    omega (arith, length-padded j (n / 10), length-append (padded j (n / 10)) ((48 + n % 10) ∷ []))

-- Seven digits more, behind the digits that were written.
pub u07toa_shift-Written :
    (r : List ℕ × ℕ) (done room digits : List ℕ) (m : ℕ)
    → Written r done room digits
    → m < 10000000
    → length digits + 8 ≤ length room
    → Written (u07toa_shift r.0 (length done) m r.1) done room (digits ++ padded 7 m)
unfolding u07toa_shift
u07toa_shift-Written r done room digits m w small wide =
    let front = done ++ digits in
    let split = w.bytes ∙ sym (append_assoc done digits (0 ∷ w.pad)) in
    let more : Written
        (store (front ++ (0 ∷ w.pad)) (length done + r.1) (padded 7 m ++ (0 ∷ [])), 7) front
        (0 ∷ w.pad) (padded 7 m) =
      put-Written front (0 ∷ w.pad) (padded 7 m) [] (length done + r.1) 7
        (omega (arith, length-append done digits, w.count))
        (omega (arith, w.same, length-padded 7 m)) (sym (length-padded 7 m)) in
    record {
      pad = more.pad;
      bytes =
          ap (λ t. store r.0 (length done + r.1) t) (u07toa_loop_lem 6 m (0 ∷ []) (omega arith))
          ∙ ap (λ t. store t (length done + r.1) (padded 7 m ++ (0 ∷ []))) split
          ∙ more.bytes
          ∙ append_assoc done digits (padded 7 m ++ (0 ∷ more.pad))
          ∙ ap (λ t. done ++ t) (sym (append_assoc digits (padded 7 m) (0 ∷ more.pad)));
      count = omega (arith, w.count, length-append digits (padded 7 m), length-padded 7 m);
      same = omega (arith, w.same, more.same, length-append digits (padded 7 m));
    }

seven_low_9 :
    (n : ℕ) → 10000000 ≤ n → decimal 9 n ≡ decimal 2 (n / 10000000) ++ padded 7 (n % 10000000)
unfolding deep
seven_low_9 n h = seven_low 2 n h

-- In a block with eleven bytes from `at` on, `u32toa` writes there the decimal digits of a 32-bit
-- number and a terminator, returns the number of the digits, and stores nothing before or behind the
-- block.
pub u32toa-Written :
    (done room : List ℕ) (n : ℕ)
    → n < 2 ^ 32
    → 11 ≤ length room
    → Written (u32toa (done ++ room) (length done) n) done room (decimal 9 n)
unfolding u32toa decimal
u32toa-Written done room n small wide = elim (Bool-cases (ltb n 10)) [
  | inl single ↦
      rw (single, decimal_deep 0 9 n (ltb→lt n 10 single) (omega arith))
        (put-Written done room ((48 + n) ∷ []) [] (length done) 1 refl (omega arith) refl)
  | inr more ↦ elim (Bool-cases (leb ten_pow_7 n)) [
    | inl long ↦
        (let big = leb→le ten_pow_7 n long in
          rw (more, long, seven_low_9 n big)
            (u07toa_shift-Written (u7toa_shift (done ++ room) (length done) (n / ten_pow_7)) done
              room (decimal 2 (n / ten_pow_7)) (n % ten_pow_7)
              (rw (sym (decimal_deep 2 6 (n / ten_pow_7) (omega arith) (omega arith)))
                (u7toa_shift-Written done room (n / ten_pow_7) (omega arith) (omega arith)))
              (omega arith) (omega (arith, length-decimal 2 (n / ten_pow_7)))))
    | inr short ↦
        (let few : n < 10000000 = ground arith in
          rw (more, short, decimal_deep 6 9 n few (omega arith))
            (u7toa_shift-Written done room n few (omega arith)))
  ]
]

-- The digits of the number whose 32-bit pattern is `n`, behind a minus where it is negative.
unfoldable pub signed : ℕ → List ℕ
signed n = if ltb n (2 ^ 31) then decimal 9 n else 45 ∷ decimal 9 (2 ^ 32 - n)

pub minus-Written :
    (r : List ℕ × ℕ) (done room digits : List ℕ)
    → 1 ≤ length room
    → Written r (done ++ (45 ∷ [])) (drop 1 room) digits
    → Written (r.0, 1 + r.1) done room (45 ∷ digits)
minus-Written r done room digits l w = record {
  pad = w.pad;
  bytes = w.bytes ∙ append_assoc done (45 ∷ []) (digits ++ (0 ∷ w.pad));
  count = omega (arith, w.count);
  same = omega (arith, w.same, length-drop 1 room);
}

-- In a block with twelve bytes from `at` on, `i32toa` writes there the digits of a number of 32 bits in
-- two's complement, behind a minus where it is negative, and a terminator, and returns their number.
pub i32toa-Written :
    (done room : List ℕ) (n : ℕ)
    → n < 2 ^ 32
    → 12 ≤ length room
    → Written (i32toa (done ++ room) (length done) n) done room (signed n)
unfolding i32toa signed
i32toa-Written done room n small wide = elim (Bool-cases (ltb n (2 ^ 31))) [
  | inl plus ↦ rw plus (u32toa-Written done room n small (omega arith))
  | inr minus ↦
      (let least : 2 ^ 31 ≤ n = ground arith in
        let wrap : (2 ^ 32 - n) % 2 ^ 32 ≡ 2 ^ 32 - n = omega arith in
        let next : length done + 1 ≡ length (done ++ (45 ∷ [])) =
          omega (arith, length-append done (45 ∷ [])) in
        rw (minus, wrap, next, set-end done room (length done) 45 refl (omega arith))
          (minus-Written
            (u32toa ((done ++ (45 ∷ [])) ++ drop 1 room) (length (done ++ (45 ∷ []))) (2 ^ 32 - n))
            done room (decimal 9 (2 ^ 32 - n)) (omega arith)
            (u32toa-Written (done ++ (45 ∷ [])) (drop 1 room) (2 ^ 32 - n) (omega arith)
              (omega (arith, length-drop 1 room)))))
]
