-- ===== src/Digits/Radix.antt =====
-- The `_radix` conversions of cutils.c.
use substrata_swift.Prelude.{ℕ, zero, suc, ◌+◌, ◌-◌, ◌*◌, ◌/◌, ◌%◌, ◌^◌, bit_and}
use substrata_swift.Prelude.{ltb, leb, ◌==◌, if◌then◌else◌, List, [], ◌∷◌, set, store}
use substrata_swift.Digits.{u32toa, u64toa}

-- `digits36`, at an index below 36.
unfoldable pub digit36 : ℕ → ℕ
digit36 d = if ltb d 10 then 48 + d else 87 + d

-- `radix_shift`: the binary logarithm of 2, 4, 8, 16 and 32, and 0 for any other index below 64.
unfoldable pub radix_shift : ℕ → ℕ
radix_shift b =
    if b == 2
    then 1
    else if b == 4
    then 2
    else if b == 8
    then 3
    else if b == 16
    then 4
    else if b == 32
    then 5
    else 0

-- `width - clz(n)` for `n` below `2 ^ width`: the number of binary digits, 0 for 0.
unfoldable pub bit_len : ℕ → ℕ → ℕ
bit_len zero n = 0
bit_len (suc width) n = let rest = bit_len width (n / 2) in if n == 0 then 0 else suc rest

-- `while (n >= base) { … *end-- = digits36[n mod base]; n = n / base; } *end = digits36[n];` with the
-- division by shift and mask or by `/` and `%`, which agree for a power of two. `end` is where the
-- next digit goes.
unfoldable pub fill_loop : ℕ → ℕ → List ℕ → ℕ → ℕ → List ℕ
fill_loop zero base dest end n = dest
fill_loop (suc fuel) base dest end n =
    let rest = fill_loop fuel base (set dest end (digit36 (n % base))) (end - 1) (n / base) in
    if leb base n then rest else set dest end (digit36 n)

unfoldable pub fill_shift_loop : ℕ → ℕ → ℕ → List ℕ → ℕ → ℕ → List ℕ
fill_shift_loop zero base shift dest end n = dest
fill_shift_loop (suc fuel) base shift dest end n =
    let rest =
      fill_shift_loop fuel base shift (set dest end (digit36 (bit_and n (2 ^ shift - 1)))) (end - 1)
        (n / 2 ^ shift) in
    if leb base n then rest else set dest end (digit36 n)

-- The power-of-two branch for words of `width` bits.
unfoldable pub radix_by_shift : ℕ → List ℕ → ℕ → ℕ → ℕ → ℕ → List ℕ × ℕ
radix_by_shift width dest at n base shift =
    let len = (bit_len width n + shift - 1) / shift in
    let last = bit_and n (2 ^ shift - 1) in
    let marked = set (set dest (at + len) 0) (at + len - 1) (digit36 last) in
    (fill_shift_loop width base shift marked (at + len - 2) (n / 2 ^ shift), len)

-- `while (n >= nbase) { nbase *= base; len++; }` in words of `width` bits.
unfoldable pub count_loop : ℕ → ℕ → ℕ → ℕ → ℕ → ℕ → ℕ
count_loop zero width base n nbase len = len
count_loop (suc fuel) width base n nbase len =
    let rest = count_loop fuel width base n (nbase * base % 2 ^ width) (len + 1) in
    if leb nbase n then rest else len

-- The other branch.
unfoldable pub radix_by_division : ℕ → List ℕ → ℕ → ℕ → ℕ → List ℕ × ℕ
radix_by_division width dest at n base =
    let len = count_loop width width base (n / base) base 2 in
    let marked = set (set dest (at + len) 0) (at + len - 1) (digit36 (n % base)) in
    (fill_loop width base marked (at + len - 2) (n / base), len)

unfoldable pub u32toa_radix : List ℕ → ℕ → ℕ → ℕ → List ℕ × ℕ
u32toa_radix dest at n base =
    let shift = radix_shift (base % 64) in
    if base == 10
    then u32toa dest at n
    else if ltb n base
    then (store dest at (digit36 n ∷ 0 ∷ []), 1)
    else if shift == 0
    then radix_by_division 32 dest at n base
    else radix_by_shift 32 dest at n base shift

unfoldable pub u64toa_radix : List ℕ → ℕ → ℕ → ℕ → List ℕ × ℕ
u64toa_radix dest at n base =
    let shift = radix_shift (base % 64) in
    if base == 10
    then u64toa dest at n
    else if shift == 0
    then (if ltb n 0x100000000
        then u32toa_radix dest at n base
        else radix_by_division 64 dest at n base)
    else if ltb n base
    then (store dest at (digit36 n ∷ 0 ∷ []), 1)
    else radix_by_shift 64 dest at n base shift

unfoldable pub i32toa_radix : List ℕ → ℕ → ℕ → ℕ → List ℕ × ℕ
i32toa_radix dest at n base =
    if ltb n (2 ^ 31)
    then u32toa_radix dest at n base
    else (let (dest', len) =
          u32toa_radix (store dest at (45 ∷ [])) (at + 1) ((2 ^ 32 - n) % 2 ^ 32) base in
        (dest', 1 + len))

unfoldable pub i64toa_radix : List ℕ → ℕ → ℕ → ℕ → List ℕ × ℕ
i64toa_radix dest at n base =
    if ltb n (2 ^ 63)
    then u64toa_radix dest at n base
    else (let (dest', len) =
          u64toa_radix (store dest at (45 ∷ [])) (at + 1) ((2 ^ 64 - n) % 2 ^ 64) base in
        (dest', 1 + len))
