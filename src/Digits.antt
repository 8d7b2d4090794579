-- ===== src/Digits.antt =====
-- Integers to text in Sources/SubstrataQuickJS/cutils.c: `u7toa_shift`, `u07toa_shift`, `u32toa`,
-- `u64toa`, `i32toa`, `i64toa` and their `_radix` variants.
-- `dest` is the list of the bytes of the destination, and `at` the place in it that the C function is
-- given; a function returns the bytes with its stores made, and its length. A negative `int32_t` or
-- `int64_t` is given by its bit pattern. `is_be()` is false on the platforms of Package.swift, so
-- `gen_digit` is the shift to the left, and `memcpy` from a `uint64_t` stores its lowest byte first.
pub mod Radix
pub mod Laws
pub mod Decimal
pub mod Wide
mod Tests
use substrata_swift.Prelude.{ℕ, zero, suc, ◌+◌, ◌-◌, ◌*◌, ◌/◌, ◌%◌, ◌^◌, bit_or}
use substrata_swift.Prelude.{ltb, leb, if◌then◌else◌, List, [], ◌∷◌, store}

-- `gen_digit(buf, c)`
unfoldable pub gen_digit : ℕ → ℕ → ℕ
gen_digit buf c = bit_or (buf * 2 ^ 8 % 2 ^ 64) c

-- The loop of `u7toa_shift`. An `uint32_t` has ten digits at most, so ten rounds are enough.
unfoldable pub u7toa_loop : ℕ → ℕ → ℕ → ℕ → ℕ × ℕ × ℕ
u7toa_loop zero n buf len = (n, buf, len)
u7toa_loop (suc fuel) n buf len =
    let rest = u7toa_loop fuel (n / 10) (gen_digit buf (48 + n % 10)) (len + 1) in
    if leb 10 n then rest else (n, buf, len)

-- The bytes of a number, lowest first.
unfoldable pub low_bytes : ℕ → ℕ → List ℕ
low_bytes zero b = []
low_bytes (suc k) b = b % 256 ∷ low_bytes k (b / 256)

unfoldable pub u7toa_shift : List ℕ → ℕ → ℕ → List ℕ × ℕ
u7toa_shift dest at n =
    let (m, buf, len) = u7toa_loop 10 n 0 1 in
    (store dest at (low_bytes 8 (gen_digit buf (48 + m))), len)

-- The digits that the loop of `u07toa_shift` stores at `dest[i]` down to `dest[1]`, and that at `dest[0]`.
unfoldable pub u07toa_loop : ℕ → ℕ → List ℕ → List ℕ
u07toa_loop zero n stored = (48 + n) ∷ stored
u07toa_loop (suc i) n stored = u07toa_loop i (n / 10) ((48 + n % 10) ∷ stored)

unfoldable pub u07toa_shift : List ℕ → ℕ → ℕ → ℕ → List ℕ × ℕ
u07toa_shift dest at n len = (store dest (at + len) (u07toa_loop 6 n (0 ∷ [])), len + 7)

abbrev pub ten_pow_7 : ℕ
ten_pow_7 = 10000000

unfoldable pub u32toa : List ℕ → ℕ → ℕ → List ℕ × ℕ
u32toa dest at n =
    if ltb n 10
    then (store dest at ((48 + n) ∷ 0 ∷ []), 1)
    else if leb ten_pow_7 n
    then (let (dest', len) = u7toa_shift dest at (n / ten_pow_7) in
        u07toa_shift dest' at (n % ten_pow_7) len)
    else u7toa_shift dest at n

-- The part of `u64toa` before the last seven digits.
unfoldable pub u64toa_front : List ℕ → ℕ → ℕ → List ℕ × ℕ
u64toa_front dest at n1 =
    if leb ten_pow_7 n1
    then (let (dest', len) = u7toa_shift dest at (n1 / ten_pow_7 % 2 ^ 32) in
        u07toa_shift dest' at (n1 % ten_pow_7) len)
    else u7toa_shift dest at n1

unfoldable pub u64toa : List ℕ → ℕ → ℕ → List ℕ × ℕ
u64toa dest at n =
    if ltb n 0x100000000
    then u32toa dest at n
    else if leb ten_pow_7 n
    then (let (dest', len) = u64toa_front dest at (n / ten_pow_7) in
        u07toa_shift dest' at (n % ten_pow_7) len)
    else u7toa_shift dest at n

-- `n` is the bit pattern; `-(uint32_t)n` is taken modulo 2^32.
unfoldable pub i32toa : List ℕ → ℕ → ℕ → List ℕ × ℕ
i32toa dest at n =
    if ltb n (2 ^ 31)
    then u32toa dest at n
    else (let (dest', len) = u32toa (store dest at (45 ∷ [])) (at + 1) ((2 ^ 32 - n) % 2 ^ 32) in
        (dest', 1 + len))

unfoldable pub i64toa : List ℕ → ℕ → ℕ → List ℕ × ℕ
i64toa dest at n =
    if ltb n (2 ^ 63)
    then u64toa dest at n
    else (let (dest', len) = u64toa (store dest at (45 ∷ [])) (at + 1) ((2 ^ 64 - n) % 2 ^ 64) in
        (dest', 1 + len))
