-- ===== src/CharRange.antt =====
-- Sets of code points in Sources/SubstrataQuickJS/libunicode.c and include/libunicode.h: `CharRange`,
-- `cr_init`, `cr_realloc`, `cr_add_point`, `cr_add_interval`, `cr_copy`, `cr_compress`, `cr_op`,
-- `cr_union1`, `cr_union_interval` and `cr_invert`.
-- `points` is the list of the `len` points in use, and `size` the capacity of the block; what stands
-- behind `len` is never read. Whether `realloc_func` returns a block for a number of bytes is a
-- parameter; a block that it returns keeps the points, as that of `realloc` does. A function returns
-- its result, `true` for 0 and `false` for -1, beside the range that it leaves. `int` sums are exact:
-- a block of 2^31 points is past the memory limit of the engine.
pub mod Member
pub mod Compress
pub mod Toggles
pub mod Loop
pub mod Op
pub mod Sets
pub mod Refused
mod Tests
use Prim.Native.Nat.{max}
use substrata_swift.Prelude.{ℕ, ◌+◌, ◌-◌, ◌*◌, ◌/◌, ◌%◌, ◌^◌, ltb, leb, ◌==◌, if◌then◌else◌}
use substrata_swift.Prelude.{Bool, true, false, not, xor, ◌&&◌, ◌||◌, Option, none, some}
use substrata_swift.Prelude.{List, [], ◌∷◌, ◌++◌, length}

pub record CharRange : Type 0 where
  pub points : List ℕ
  pub size : ℕ

abbrev pub len : CharRange → ℕ
len cr = length cr.points

unfoldable pub cr_init : CharRange
cr_init = record { points = []; size = 0 }

-- `n & 1`
unfoldable pub odd : ℕ → Bool
odd n = n % 2 == 1

pub data CharRangeOp : Type 0 where
  union inter exclusive : CharRangeOp

-- The `switch` of `cr_op`, on the low bits of the two indices.
unfoldable pub is_in : CharRangeOp → Bool → Bool → Bool
is_in CharRangeOp.union a b = a || b
is_in CharRangeOp.inter a b = a && b
is_in CharRangeOp.exclusive a b = xor a b

-- The loops of `cr_compress`, over the points from `i` on. With a pair at hand they are those from
-- `j + 2` on, and the pair is `pt[i]` and `pt[j + 1]`. The stores at `k` and `k + 1` never pass `i`, so
-- the points read are those that were there before the call. A last point with no partner is dropped.
unfoldable pub compress_from : Option (ℕ × ℕ) → List ℕ → List ℕ
compress_from none [] = []
compress_from none (p ∷ []) = []
compress_from none (p ∷ q ∷ ps) =
    let skipped = compress_from none ps in
    let kept = compress_from (some (p, q)) ps in if p == q then skipped else kept
compress_from (some (p, q)) [] = p ∷ q ∷ []
compress_from (some (p, q)) (r ∷ []) = p ∷ q ∷ []
compress_from (some (p, q)) (r ∷ s ∷ ps) =
    let merged = compress_from (some (p, s)) ps in
    let skipped = compress_from none ps in
    let kept = compress_from (some (r, s)) ps in
    if q == r then merged else p ∷ q ∷ (if r == s then skipped else kept)

unfoldable pub cr_compress : CharRange → CharRange
cr_compress cr = record cr { points = compress_from none cr.points }

-- Whether `realloc_func` returns a block of so many bytes.
module _ (allocates : ℕ → Bool) where
  unfoldable pub cr_realloc : CharRange → ℕ → Bool × CharRange
  cr_realloc cr size =
      let new_size = max size (cr.size * 3 / 2) in
      if ltb cr.size size
      then if allocates (new_size * 4) then (true, record cr { size = new_size }) else (false, cr)
      else (true, cr)

  unfoldable pub cr_add_point : CharRange → ℕ → Bool × CharRange
  cr_add_point cr v =
      let (done, grown) = if leb cr.size (len cr) then cr_realloc cr (len cr + 1) else (true, cr) in
      if done then (true, record grown { points = grown.points ++ (v ∷ []) }) else (false, grown)

  unfoldable pub cr_add_interval : CharRange → ℕ → ℕ → Bool × CharRange
  cr_add_interval cr c1 c2 =
      let (done, grown) =
        if ltb cr.size (len cr + 2) then cr_realloc cr (len cr + 2) else (true, cr) in
      if done
      then (true, record grown { points = grown.points ++ (c1 ∷ c2 ∷ []) })
      else (false, grown)

  unfoldable pub cr_copy : CharRange → CharRange → Bool × CharRange
  cr_copy cr cr1 =
      let (done, grown) = cr_realloc cr (len cr1) in
      if done then (true, record grown { points = cr1.points }) else (false, grown)

  -- `if (is_in != (cr->len & 1)) { if (cr_add_point(cr, v)) return -1; }`
  unfoldable pub toggle : CharRangeOp → ℕ → ℕ → ℕ → CharRange → Bool × CharRange
  toggle op a_idx b_idx v cr =
      if xor (is_in op (odd a_idx) (odd b_idx)) (odd (len cr))
      then cr_add_point cr v
      else (true, cr)

  -- The loop of `cr_op`: `a` and `b` are the points from `a_idx` and `b_idx` on.
  unfoldable pub op_loop : CharRangeOp → List ℕ → List ℕ → ℕ → ℕ → CharRange → Bool × CharRange
  op_loop op [] [] a_idx b_idx cr = (true, cr)
  op_loop op (v ∷ a) [] a_idx b_idx cr =
      let (done, cr') = toggle op (a_idx + 1) b_idx v cr in
      let rest = op_loop op a [] (a_idx + 1) b_idx cr' in if done then rest else (false, cr')
  op_loop op [] (v ∷ b) a_idx b_idx cr =
      let (done, cr') = toggle op a_idx (b_idx + 1) v cr in
      let rest = op_loop op [] b a_idx (b_idx + 1) cr' in if done then rest else (false, cr')
  op_loop op (v ∷ a) (w ∷ b) a_idx b_idx cr =
      let (done_a, cr_a) = toggle op (a_idx + 1) b_idx v cr in
      let rest_a = op_loop op a (w ∷ b) (a_idx + 1) b_idx cr_a in
      let (done_both, cr_both) = toggle op (a_idx + 1) (b_idx + 1) v cr in
      let rest_both = op_loop op a b (a_idx + 1) (b_idx + 1) cr_both in
      let (done_b, cr_b) = toggle op a_idx (b_idx + 1) w cr in
      let rest_b = op_loop op (v ∷ a) b a_idx (b_idx + 1) cr_b in
      if ltb v w
      then (if done_a then rest_a else (false, cr_a))
      else if v == w
      then (if done_both then rest_both else (false, cr_both))
      else (if done_b then rest_b else (false, cr_b))

  unfoldable pub cr_op : CharRange → List ℕ → List ℕ → CharRangeOp → Bool × CharRange
  cr_op cr a b op =
      let (done, cr') = op_loop op a b 0 0 cr in
      if done then (true, cr_compress cr') else (false, cr')

  -- The old points are read from the copy `a`, whose block is freed at the end.
  unfoldable pub cr_union1 : CharRange → List ℕ → Bool × CharRange
  cr_union1 cr b = cr_op cr_init cr.points b CharRangeOp.union

  -- `c2 + 1` is computed in `uint32_t`.
  unfoldable pub cr_union_interval : CharRange → ℕ → ℕ → Bool × CharRange
  cr_union_interval cr c1 c2 = cr_union1 cr (c1 ∷ (c2 + 1) % 2 ^ 32 ∷ [])

  unfoldable pub cr_invert : CharRange → Bool × CharRange
  cr_invert cr =
      let (done, grown) = cr_realloc cr (len cr + 2) in
      if done
      then (true, cr_compress (record grown { points = 0 ∷ (grown.points ++ ((2 ^ 32 - 1) ∷ [])) }))
      else (false, grown)
