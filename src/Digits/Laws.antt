-- ===== src/Digits/Laws.antt =====
-- The decimal conversions of cutils.c write the decimal digits.
use mathlib.Core.List.{append_assoc, append-nil}
use substrata_swift.Prelude.{
  ℕ, zero, suc, ◌+◌, ◌-◌, ◌*◌, ◌/◌, ◌%◌, ◌^◌, ◌≤◌, ◌<◌, ◌≡◌, refl, sym, ap, ◌∙◌, arith,
}
use substrata_swift.Prelude.{
  leb, if◌then◌else◌, false, Bool-cases, inl, inr, List, [], ◌∷◌, ◌++◌, length, length-append,
  store, store-end, drop, length-drop,
}
use substrata_swift.Prelude.Bits.{bit_or_high}
use substrata_swift.Digits.{gen_digit, u7toa_loop, low_bytes, u7toa_shift, u07toa_loop}

-- The decimal digits of a number, highest first, for a number below 10 ^ (k + 1).
unfoldable pub decimal : ℕ → ℕ → List ℕ
decimal zero n = (48 + n) ∷ []
decimal (suc k) n =
    let rest = decimal k (n / 10) ++ ((48 + n % 10) ∷ []) in
    if leb 10 n then rest else (48 + n) ∷ []

-- Exactly `k` digits, with zeros in front.
unfoldable pub padded : ℕ → ℕ → List ℕ
padded zero n = []
padded (suc k) n = padded k (n / 10) ++ ((48 + n % 10) ∷ [])

-- `low_bytes` of zero.
unfoldable zeros : ℕ → List ℕ
zeros zero = []
zeros (suc k) = 0 ∷ zeros k

low_bytes_zero : (k : ℕ) → low_bytes k 0 ≡ zeros k
unfolding low_bytes zeros
low_bytes_zero zero = refl
low_bytes_zero (suc k) = ap (λ t. 0 ∷ t) (low_bytes_zero k)

-- The bytes of `buf` are `ds`, lowest first.
unfoldable Holds : ℕ → List ℕ → Type 0
Holds buf ds =
    (buf < 256 ^ length ds) × ((k n : ℕ) → n ≡ length ds + k → low_bytes n buf ≡ ds ++ zeros k)

the_sum : (k n : ℕ) → n ≡ 0 + k → n ≡ k
the_sum k n e = omega arith

Holds-zero : Holds 0 []
unfolding Holds
Holds-zero = (omega arith, λ k n e. ap (λ t. low_bytes t 0) (the_sum k n e) ∙ low_bytes_zero k)

power_8 : (k : ℕ) → k ≤ 7 → 256 ^ k * 256 ≤ 2 ^ 64
power_8 zero h = omega arith
power_8 (suc zero) h = omega arith
power_8 (suc (suc zero)) h = omega arith
power_8 (suc (suc (suc zero))) h = omega arith
power_8 (suc (suc (suc (suc zero)))) h = omega arith
power_8 (suc (suc (suc (suc (suc zero))))) h = omega arith
power_8 (suc (suc (suc (suc (suc (suc zero)))))) h = omega arith
power_8 (suc (suc (suc (suc (suc (suc (suc zero))))))) h = omega arith
power_8 (suc (suc (suc (suc (suc (suc (suc (suc k)))))))) h = absurd (omega arith)

gen_digit_lem : (buf c k : ℕ) → k ≤ 7 → buf < 256 ^ k → c < 256 → gen_digit buf c ≡ buf * 256 + c
unfolding gen_digit
gen_digit_lem buf c k l h b = ground (arith, bit_or_high 8 buf c (omega arith), power_8 k l)

low_bytes_next : (buf c n : ℕ) → c < 256 → low_bytes (suc n) (buf * 256 + c) ≡ c ∷ low_bytes n buf
unfolding low_bytes
low_bytes_next buf c n b =
    let low : (buf * 256 + c) % 256 ≡ c = omega arith in
    let high : (buf * 256 + c) / 256 ≡ buf = omega arith in
    ap (λ t. t ∷ low_bytes n ((buf * 256 + c) / 256)) low ∙ ap (λ t. c ∷ low_bytes n t) high

wider : (buf c m : ℕ) → buf < 256 ^ m → c < 256 → buf * 256 + c < 256 ^ suc m
wider buf c m h b = omega arith

one_more :
    (buf c : ℕ) (ds : List ℕ)
    → c < 256
    → Holds buf ds
    → (k n : ℕ) → n ≡ suc (length ds) + k
    → low_bytes n (buf * 256 + c) ≡ c ∷ (ds ++ zeros k)
unfolding Holds
one_more buf c ds b h k zero e = absurd (omega arith)
one_more buf c ds b h k (suc n) e =
    low_bytes_next buf c n b ∙ ap (λ t. c ∷ t) (h.1 k n (omega arith))

gen_digit-Holds :
    (buf c : ℕ) (ds : List ℕ)
    → length ds ≤ 7
    → c < 256
    → Holds buf ds
    → Holds (gen_digit buf c) (c ∷ ds)
unfolding Holds
gen_digit-Holds buf c ds l b h =
    rw (gen_digit_lem buf c (length ds) l h.0 b)
      (wider buf c (length ds) h.0 b, one_more buf c ds b h)

-- What the loop of `u7toa_shift` leaves: the last digit `m`, and the other digits in `buf`.
record Front (r : ℕ × ℕ × ℕ) (digits : List ℕ) : Type 0 where
  rest : List ℕ
  last : r.0 < 10
  short : length rest < 7
  holds : Holds r.1 rest
  digits_are : (48 + r.0) ∷ rest ≡ digits
  counted : r.2 ≡ suc (length rest)

u7toa_loop-Front :
    (fuel k n buf len : ℕ) (ds : List ℕ)
    → n < 10 ^ suc k
    → k < fuel
    → length ds + k < 7
    → Holds buf ds
    → len ≡ suc (length ds)
    → Front (u7toa_loop fuel n buf len) (decimal k n ++ ds)
unfolding u7toa_loop decimal
u7toa_loop-Front zero k n buf len ds small f room h e = absurd (omega arith)
u7toa_loop-Front (suc fuel) zero n buf len ds small f room h e =
    let single : leb 10 n ≡ false = ground arith in
    rw single (record {
      rest = ds;
      last = omega arith;
      short = omega arith;
      holds = h;
      digits_are = refl;
      counted = e;
    })
u7toa_loop-Front (suc fuel) (suc k) n buf len ds small f room h e = elim (Bool-cases (leb 10 n)) [
  | inl more ↦ rw more (
      rw (append_assoc (decimal k (n / 10)) ((48 + n % 10) ∷ []) ds) (
        u7toa_loop-Front fuel k (n / 10) (gen_digit buf (48 + n % 10)) (len + 1)
          ((48 + n % 10) ∷ ds) (omega arith) (omega arith) (omega arith)
          (gen_digit-Holds buf (48 + n % 10) ds (omega arith) (omega arith) h) (omega arith)))
  | inr few ↦ rw few (record {
    rest = ds;
    last = ground arith;
    short = omega arith;
    holds = h;
    digits_are = refl;
    counted = e;
  })
]

pub u07toa_loop_lem :
    (i n : ℕ) (stored : List ℕ)
    → n < 10 ^ suc i
    → u07toa_loop i n stored ≡ padded (suc i) n ++ stored
unfolding u07toa_loop padded
u07toa_loop_lem zero n stored h = ap (λ t. (48 + t) ∷ stored) (omega arith)
u07toa_loop_lem (suc i) n stored h =
    u07toa_loop_lem i (n / 10) ((48 + n % 10) ∷ stored) (omega arith)
    ∙ sym (append_assoc (padded (suc i) (n / 10)) ((48 + n % 10) ∷ []) stored)

-- The bytes `digits` and a zero stand behind `done`, and nothing is stored past the block.
pub record Written (r : List ℕ × ℕ) (done room digits : List ℕ) : Type 0 where
  pub pad : List ℕ
  pub bytes : r.0 ≡ done ++ (digits ++ (0 ∷ pad))
  pub count : r.1 ≡ length digits
  pub same : length digits + suc (length pad) ≡ length room

pub put-Written :
    (done room digits z : List ℕ) (at len : ℕ)
    → at ≡ length done
    → length digits + suc (length z) ≤ length room
    → len ≡ length digits
    → Written (store (done ++ room) at (digits ++ (0 ∷ z)), len) done room digits
put-Written done room digits z at len a fits c =
    let vs = digits ++ (0 ∷ z) in
    let total = length-append digits (0 ∷ z) in
    record {
      pad = z ++ drop (length vs) room;
      bytes =
          store-end vs done room at a (omega arith)
          ∙ append_assoc done vs (drop (length vs) room)
          ∙ ap (λ t. done ++ t) (append_assoc digits (0 ∷ z) (drop (length vs) room));
      count = c;
      same = omega (arith, length-append z (drop (length vs) room), length-drop (length vs) room);
    }

length-zeros : (k : ℕ) → length (zeros k) ≡ k
unfolding zeros
length-zeros zero = refl
length-zeros (suc k) = ap suc (length-zeros k)

zeros_first : (k j : ℕ) → k ≡ suc j → zeros k ≡ 0 ∷ zeros j
unfolding zeros
zeros_first zero j e = absurd (omega arith)
zeros_first (suc k) j e = ap (λ t. 0 ∷ zeros t) (omega arith)

Front-bytes :
    (r : ℕ × ℕ × ℕ) (digits : List ℕ)
    → Front r digits
    → (low_bytes 8 (gen_digit r.1 (48 + r.0)) ≡ digits ++ (0 ∷ zeros (7 - length digits)))
      × (length digits ≤ 7)
      × (r.2 ≡ length digits)
unfolding Holds
Front-bytes r digits f =
    let few : length digits ≡ suc (length f.rest) = sym (ap length f.digits_are) in
    (
      (gen_digit-Holds r.1 (48 + r.0) f.rest (omega (arith, f.short)) (omega (arith, f.last))
              f.holds).1
            (8 - length digits) 8 (omega (arith, f.short))
          ∙ ap (λ t. t ++ zeros (8 - length digits)) f.digits_are
          ∙ ap (λ t. digits ++ t)
              (zeros_first (8 - length digits) (7 - length digits) (omega (arith, f.short))),
      omega (arith, f.short),
      omega (arith, f.counted),
    )

-- `u7toa_shift` for a number of up to seven digits, with room for eight bytes.
pub u7toa_shift-Written :
    (done room : List ℕ) (n : ℕ)
    → n < 10000000
    → 8 ≤ length room
    → Written (u7toa_shift (done ++ room) (length done) n) done room (decimal 6 n)
unfolding u7toa_shift
u7toa_shift-Written done room n small wide =
    let f =
      u7toa_loop-Front 10 6 n 0 1 [] (omega arith) (omega arith) (omega arith) Holds-zero refl in
    let b = Front-bytes (u7toa_loop 10 n 0 1) (decimal 6 n) (rw append-nil at f) in
    rw (b.0) (
      put-Written done room (decimal 6 n) (zeros (7 - length (decimal 6 n))) (length done)
        (u7toa_loop 10 n 0 1).2 refl (omega (arith, length-zeros (7 - length (decimal 6 n)), b.1))
        b.2)
