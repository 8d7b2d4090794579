-- ===== src/Sort.antt =====
-- `rqsort` in Sources/SubstrataQuickJS/cutils.c, with `heapsortx` and `med3`.
-- The array is the list of its elements, and a pointer into it is an index: every pointer of the code
-- is `base` plus a multiple of `size`. Sort/Exchange.antt models the exchange of two elements on bytes.
-- `cmp` is a parameter: the sign of the `int` that the caller's function returns. The result is `none`
-- for an access past the end of the array or of the local stack, or when the fuel is spent.
pub mod Exchange
pub mod Same
pub mod Keys
pub mod Heaps
pub mod Ordered
pub mod Insertion
pub mod Parts
pub mod Blocks
pub mod Heap
pub mod Partition
pub mod Split
pub mod Divide
pub mod Pending
pub mod Runs
pub mod Sorted
mod Tests
use Prim.Native.Nat.{Ordering}
use substrata_swift.Prelude.{ℕ, zero, suc, ◌+◌, ◌-◌, ◌*◌, ◌/◌, ltb, leb, if◌then◌else◌}
use substrata_swift.Prelude.{Bool, true, false, ◌||◌, Option, none, some, ◌>>=◌}
use substrata_swift.Prelude.{List, [], ◌∷◌, length, get_elem?, set}

-- `swap(a, b, size)` on two elements
unfoldable pub swap {ℓ} : {A : Type ℓ} → List A → ℕ → ℕ → Option (List A)
swap xs i j = do x ← get_elem? xs i; y ← get_elem? xs j; some (set (set xs i y) j x)

-- `exchange_func(base, size | 128)` on `n` elements from `i` and from `j` on
unfoldable pub swap_block {ℓ} : {A : Type ℓ} → ℕ → List A → ℕ → ℕ → Option (List A)
swap_block zero xs i j = some xs
swap_block (suc n) xs i j = do xs' ← swap xs i j; swap_block n xs' (i + 1) (j + 1)

-- `sp` points behind the top of a stack of 50 entries: base, count and depth.
unfoldable pub push_segment : List (ℕ × ℕ × ℕ) → ℕ → ℕ → ℕ → Option (List (ℕ × ℕ × ℕ))
push_segment stack base count depth =
    if ltb (length stack) 50 then some ((base, count, depth) ∷ stack) else none

module _ {ℓ} {A : Type ℓ} (cmp : A → A → Ordering) where
  unfoldable pub order : List A → ℕ → ℕ → Option Ordering
  order xs i j = do x ← get_elem? xs i; y ← get_elem? xs j; some (cmp x y)

  -- `c < n - size && cmp(basep + c, basep + c + size, opaque) <= 0`, then `c += size`
  unfoldable pub larger_child : List A → ℕ → ℕ → ℕ → Option ℕ
  larger_child xs base c n =
      if ltb c (n - 1)
      then (do
        o ← order xs (base + c) (base + c + 1)
        some (elim o [ Ordering.gt ↦ c | _ ↦ c + 1 ]))
      else some c

  -- `for (; (c = r * 2 + size) < n; r = c)`
  unfoldable pub sift : ℕ → List A → ℕ → ℕ → ℕ → Option (List A)
  sift zero xs base r n = none
  sift (suc fuel) xs base r n = elim (ltb (r * 2 + 1) n) [
    | false ↦ some xs
    | true ↦ do
      c ← larger_child xs base (r * 2 + 1) n
      o ← order xs (base + r) (base + c)
      elim o [
        | Ordering.gt ↦ some xs
        | _ ↦ do xs' ← swap xs (base + r) (base + c); sift fuel xs' base c n
      ]
  ]

  -- `while (i > 0) { i -= size; … }`
  unfoldable pub build_heap : ℕ → List A → ℕ → ℕ → Option (List A)
  build_heap zero xs base n = some xs
  build_heap (suc i) xs base n = do xs' ← sift (suc n) xs base i n; build_heap i xs' base n

  -- `for (i = n - size; i > 0; i -= size)`
  unfoldable pub take_max : ℕ → List A → ℕ → Option (List A)
  take_max zero xs base = some xs
  take_max (suc i) xs base = do
    swapped ← swap xs base (base + suc i)
    xs' ← sift (suc (suc i)) swapped base 0 (suc i)
    take_max i xs' base

  unfoldable pub heapsortx : List A → ℕ → ℕ → Option (List A)
  heapsortx xs base nmemb =
      if ltb 1 nmemb
      then (do heap ← build_heap (nmemb / 2) xs base nmemb; take_max (nmemb - 1) heap base)
      else some xs

  unfoldable pub med3 : List A → ℕ → ℕ → ℕ → Option ℕ
  med3 xs a b c = do
    ab ← order xs a b
    bc ← order xs b c
    ac ← order xs a c
    some (elim ab [
      | Ordering.lt ↦ elim bc [ Ordering.lt ↦ b | _ ↦ elim ac [ Ordering.lt ↦ c | _ ↦ a ] ]
      | _ ↦ elim bc [ Ordering.gt ↦ b | _ ↦ elim ac [ Ordering.lt ↦ a | _ ↦ c ] ]
    ])

  -- `while (pi < pj && (c = cmp(ptr, pi, opaque)) >= 0)`: the array, `plt` and `pi` after it
  unfoldable pub scan_up : ℕ → List A → ℕ → ℕ → ℕ → ℕ → Option (List A × ℕ × ℕ)
  scan_up zero xs ptr plt pi pj = none
  scan_up (suc fuel) xs ptr plt pi pj = elim (ltb pi pj) [
    | false ↦ some (xs, plt, pi)
    | true ↦ do
      c ← order xs ptr pi
      elim c [
        | Ordering.lt ↦ some (xs, plt, pi)
        | Ordering.eq ↦ do xs' ← swap xs plt pi; scan_up fuel xs' ptr (plt + 1) (pi + 1) pj
        | Ordering.gt ↦ scan_up fuel xs ptr plt (pi + 1) pj
      ]
  ]

  -- `while (pi < (pj -= size) && (c = cmp(ptr, pj, opaque)) <= 0)`: the array, `pj` and `pgt`
  unfoldable pub scan_down : ℕ → List A → ℕ → ℕ → ℕ → ℕ → Option (List A × ℕ × ℕ)
  scan_down zero xs ptr pi pj pgt = none
  scan_down (suc fuel) xs ptr pi pj pgt = elim (ltb pi (pj - 1)) [
    | false ↦ some (xs, pj - 1, pgt)
    | true ↦ do
      c ← order xs ptr (pj - 1)
      elim c [
        | Ordering.gt ↦ some (xs, pj - 1, pgt)
        | Ordering.eq ↦ do
          xs' ← swap xs (pgt - 1) (pj - 1)
          scan_down fuel xs' ptr pi (pj - 1) (pgt - 1)
        | Ordering.lt ↦ scan_down fuel xs ptr pi (pj - 1) pgt
      ]
  ]

  -- `for (;;)`: the array, `plt`, `pi` and `pgt`
  unfoldable pub partition : ℕ → List A → ℕ → ℕ → ℕ → ℕ → ℕ → Option (List A × ℕ × ℕ × ℕ)
  partition zero xs ptr plt pi pj pgt = none
  partition (suc fuel) xs ptr plt pi pj pgt = do
    (xs_up, plt', pi') ← scan_up (suc (pj - pi)) xs ptr plt pi pj
    (xs_down, pj', pgt') ← scan_down (suc (pj - pi')) xs_up ptr pi' pj pgt
    elim (leb pj' pi') [
      | true ↦ some (xs_down, plt', pi', pgt')
      | false ↦ do xs' ← swap xs_down pi' pj'; partition fuel xs' ptr plt' (pi' + 1) pj' pgt'
    ]

  -- The body of `while (nmemb > 6)` below the depth check: the array, the elements smaller than the
  -- pivot (`lt`) and those not greater (`gt`), which are counts from `ptr`. `i`, `lt` and `gt` of the
  -- code before that are `pi`, `plt` and `pgt` less `ptr`.
  unfoldable pub split : List A → ℕ → ℕ → Option (List A × ℕ × ℕ)
  split xs ptr nmemb = do
    let m4 = nmemb / 4
    let top = ptr + nmemb
    m ← med3 xs (ptr + m4) (ptr + 2 * m4) (ptr + 3 * m4)
    pivoted ← swap xs ptr m
    (parted, plt, pi, pgt) ← partition nmemb pivoted ptr (ptr + 1) (ptr + 1) top top
    let low = if ltb (pi - plt) (plt - ptr) then pi - plt else plt - ptr
    lowered ← swap_block low parted ptr (pi - low)
    let high = if ltb (pgt - pi) (top - pgt) then pgt - pi else top - pgt
    raised ← swap_block high lowered pi (top - high)
    some (raised, pi - plt, nmemb - (pgt - pi))

  -- `while (nmemb > 6)`: the array, the stack, `ptr` and `nmemb` after it
  unfoldable pub segments :
      ℕ → List A → List (ℕ × ℕ × ℕ) → ℕ → ℕ → ℕ → Option (List A × List (ℕ × ℕ × ℕ) × ℕ × ℕ)
  segments zero xs stack ptr nmemb depth = none
  segments (suc fuel) xs stack ptr nmemb depth = elim (ltb 6 nmemb) [
    | false ↦ some (xs, stack, ptr, nmemb)
    | true ↦ elim (ltb 50 (depth + 1)) [
      | true ↦ do xs' ← heapsortx xs ptr nmemb; some (xs', stack, ptr, 0)
      | false ↦ do
        (xs', lt, gt) ← split xs ptr nmemb
        elim (ltb (nmemb - gt) lt) [
          | true ↦ do
            stack' ← push_segment stack ptr lt (depth + 1)
            segments fuel xs' stack' (ptr + gt) (nmemb - gt) (depth + 1)
          | false ↦ do
            stack' ← push_segment stack (ptr + gt) (nmemb - gt) (depth + 1)
            segments fuel xs' stack' ptr lt (depth + 1)
        ]
    ]
  ]

  -- `for (pj = pi; pj > ptr && cmp(pj - size, pj, opaque) > 0; pj -= size)`, with `k` for `pj - ptr`
  unfoldable pub insert_down : ℕ → List A → ℕ → Option (List A)
  insert_down zero xs ptr = some xs
  insert_down (suc k) xs ptr = do
    o ← order xs (ptr + k) (ptr + suc k)
    elim o [
      | Ordering.gt ↦ do xs' ← swap xs (ptr + suc k) (ptr + k); insert_down k xs' ptr
      | _ ↦ some xs
    ]

  -- `for (pi = ptr + size, …; pi < top; pi += size)`, with `left` elements from `k` on
  unfoldable pub insertion_sort : ℕ → ℕ → List A → ℕ → Option (List A)
  insertion_sort zero k xs ptr = some xs
  insertion_sort (suc left) k xs ptr = do
    xs' ← insert_down k xs ptr
    insertion_sort left (suc k) xs' ptr

  -- `while (sp > stack)`
  unfoldable pub rqsort_loop : ℕ → List A → List (ℕ × ℕ × ℕ) → Option (List A)
  rqsort_loop fuel xs [] = some xs
  rqsort_loop zero xs (top ∷ stack) = none
  rqsort_loop (suc fuel) xs ((base, count, depth) ∷ stack) = do
    (xs', stack', ptr, nmemb) ← segments 52 xs stack base count depth
    sorted ← insertion_sort (nmemb - 1) 1 xs' ptr
    rqsort_loop fuel sorted stack'

  -- `rqsort` on the first `nmemb` elements; an element has at least one byte.
  unfoldable pub rqsort : List A → ℕ → Option (List A)
  rqsort xs nmemb = if ltb nmemb 2 then some xs else rqsort_loop nmemb xs ((0, nmemb, 0) ∷ [])
