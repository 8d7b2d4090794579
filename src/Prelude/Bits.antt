-- ===== src/Prelude/Bits.antt =====
-- `&` with a low mask and `|` of disjoint fields, as arithmetic at every width.
use Prim.Native.Nat.{ℕ, zero, suc, ◌+◌, ◌-◌, ◌*◌, ◌/◌, ◌%◌, ◌^◌, ◌≤◌, ◌<◌, min, max}
use Prim.Native.Nat.{bit_and, bit_or, digits, bit_and-bitwise, bit_or-bitwise}
use mathlib.Core.Path.{◌≡◌, refl, ap}
use native.Mathlib.Nat.{pow-suc, one-le-pow}
use native.Mathlib.Omega.{arith}

-- The digit recursion behind both operations gives one result at any two fuels that suffice.
module _ (past : ℕ → ℕ) (digit : ℕ → ℕ → ℕ) where
  same_fuel : (m k a b : ℕ) → a ≤ k → a ≤ m → digits past digit m a b ≡ digits past digit k a b
  same_fuel zero zero a b h g = refl
  same_fuel zero (suc k) zero b h g = refl
  same_fuel (suc m) zero zero b h g = refl
  same_fuel (suc m) (suc k) zero b h g = refl
  same_fuel zero (suc k) (suc a) b h g = absurd (omega arith)
  same_fuel (suc m) zero (suc a) b h g = absurd (omega arith)
  same_fuel (suc m) (suc k) (suc a) b h g =
      ap (λ (t : ℕ). t * 2 + digit (suc a % 2) (b % 2))
        (same_fuel m k (suc a / 2) (b / 2) (omega arith) (omega arith))

and_zero_left : (b : ℕ) → bit_and 0 b ≡ 0
and_zero_left b = bit_and-bitwise 0 b

pub bit_or_zero_left : (b : ℕ) → bit_or 0 b ≡ b
bit_or_zero_left b = bit_or-bitwise 0 b

pub bit_and_low : (a b : ℕ) → bit_and a b ≡ bit_and (a / 2) (b / 2) * 2 + min (a % 2) (b % 2)
bit_and_low zero b = omega (arith, and_zero_left b, and_zero_left (b / 2))
bit_and_low (suc a) b = omega (
  arith,
  bit_and-bitwise (suc a) b,
  bit_and-bitwise (suc a / 2) (b / 2),
  same_fuel (λ _. 0) min a (suc a / 2) (suc a / 2) (b / 2) (omega arith) (omega arith),
)

pub bit_or_low : (a b : ℕ) → bit_or a b ≡ bit_or (a / 2) (b / 2) * 2 + max (a % 2) (b % 2)
bit_or_low zero b = omega (arith, bit_or_zero_left b, bit_or_zero_left (b / 2))
bit_or_low (suc a) b = omega (
  arith,
  bit_or-bitwise (suc a) b,
  bit_or-bitwise (suc a / 2) (b / 2),
  same_fuel (λ t. t) max a (suc a / 2) (suc a / 2) (b / 2) (omega arith) (omega arith),
)

or_zero_right : (n a : ℕ) → a ≤ n → bit_or a 0 ≡ a
or_zero_right n zero h = bit_or_zero_left 0
or_zero_right zero (suc a) h = absurd (omega arith)
or_zero_right (suc n) (suc a) h =
    omega (arith, bit_or_low (suc a) 0, or_zero_right n (suc a / 2) (omega arith))

and_zero_right : (n a : ℕ) → a ≤ n → bit_and a 0 ≡ 0
and_zero_right n zero h = and_zero_left 0
and_zero_right zero (suc a) h = absurd (omega arith)
and_zero_right (suc n) (suc a) h =
    omega (arith, bit_and_low (suc a) 0, and_zero_right n (suc a / 2) (omega arith))

double_power : (q k : ℕ) → q * 2 ^ suc k ≡ 2 * (q * 2 ^ k)
double_power q k = omega (arith, ap (λ (t : ℕ). q * t) (pow-suc 2 k))

-- `(q << k) | r` is a sum when `r` has `k` bits.
pub bit_or_high : (k q r : ℕ) → r < 2 ^ k → bit_or (q * 2 ^ k) r ≡ q * 2 ^ k + r
bit_or_high zero q r h = ground (arith, or_zero_right q q)
bit_or_high (suc k) q r h =
    ground
      (arith, bit_or_low (q * 2 ^ suc k) r, double_power q k, bit_or_high k q (r / 2) (omega arith))

-- `r | (q << k)`.
pub bit_or_low_field : (k q r : ℕ) → r < 2 ^ k → bit_or r (q * 2 ^ k) ≡ q * 2 ^ k + r
bit_or_low_field zero q r h = ground (arith, bit_or_zero_left q)
bit_or_low_field (suc k) q r h = ground (
  arith,
  bit_or_low r (q * 2 ^ suc k),
  double_power q k,
  bit_or_low_field k q (r / 2) (omega arith),
)

-- The low `k` bits of a number written as a high part and a low part.
and_mask_parts : (k q r : ℕ) → r < 2 ^ k → bit_and (q * 2 ^ k + r) (2 ^ k - 1) ≡ r
and_mask_parts zero q r h = ground (arith, and_zero_right (q * 2 ^ zero + r) (q * 2 ^ zero + r))
and_mask_parts (suc k) q r h = ground (
  arith,
  pow-suc 2 k,
  double_power q k,
  bit_and_low (q * 2 ^ suc k + r) (2 ^ suc k - 1),
  and_mask_parts k q (r / 2) (omega arith),
)

-- `a & (2 ^ k - 1)`.
pub bit_and_mask : (k a : ℕ) → bit_and a (2 ^ k - 1) ≡ a % 2 ^ k
bit_and_mask k a = ground (arith, one-le-pow k 2, and_mask_parts k (a / 2 ^ k) (a % 2 ^ k))
