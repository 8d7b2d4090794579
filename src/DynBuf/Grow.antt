-- ===== src/DynBuf/Grow.antt =====
-- `dbuf_realloc` and the reservation: what they keep, and what a failed one leaves behind.
use substrata_swift.Prelude.{ℕ, ◌*◌, ◌/◌, ◌^◌, ◌≤◌, ◌<◌, ◌≡◌, arith, Bool, true, false}
use substrata_swift.Prelude.{
  Option, some, List, length, take, take_of_prefix, Option-cases, inl, inr,
}
use substrata_swift.DynBuf.{DynBuf, add_size, grown_size, dbuf_realloc, reserve}

-- What the C library promises of `realloc`: a block of the size asked for, with the old bytes in
-- front when it is not smaller.
pub record IsRealloc (realloc_func : List ℕ → ℕ → Option (List ℕ)) : Type 0 where
  pub sized : (b : List ℕ) (n : ℕ) (r : List ℕ) → realloc_func b n ≡ some r → length r ≡ n
  pub keeps :
      (b : List ℕ) (n : ℕ) (r : List ℕ)
      → realloc_func b n ≡ some r
      → length b ≤ n
      → take (length b) r ≡ b

-- The fields agree with the block, and what is used lies inside it.
pub record IsValid (s : DynBuf) : Type 0 where
  pub allocated : s.allocated_size ≡ length s.buf
  pub used : s.size ≤ s.allocated_size
  pub narrow : s.allocated_size < 2 ^ 64

abbrev pub contents : DynBuf → List ℕ
contents s = take s.size s.buf

module _ (realloc_func : List ℕ → ℕ → Option (List ℕ)) (law : IsRealloc realloc_func) where
  -- With `true` there is room for `n` bytes; with `false` the error mark is set. Either way the
  -- buffer stays valid and holds what it held.
  pub record Grown (s s' : DynBuf) (done : Bool) (n : ℕ) : Type 0 where
    pub valid : IsValid s'
    pub same_size : s'.size ≡ s.size
    pub same_contents : contents s' ≡ contents s
    pub room : done ≡ true → n ≤ s'.allocated_size
    pub failed : done ≡ false → s'.error ≡ true
    pub sticky : s.error ≡ true → s'.error ≡ true

  pub dbuf_realloc-Grown :
      (s : DynBuf) (n : ℕ)
      → IsValid s
      → n < 2 ^ 64
      → Grown s (dbuf_realloc realloc_func s n).1 (dbuf_realloc realloc_func s n).0 n
  unfolding dbuf_realloc grown_size
  dbuf_realloc-Grown s n v h =
      let size = grown_size s.allocated_size n in
      elim (Option-cases (realloc_func s.buf size)) [
        | inl e ↦ ground arith
        | inr (r, e) ↦ ground (
          arith,
          law.sized s.buf size r e,
          law.keeps s.buf size r e,
          take_of_prefix s.size s.buf r,
        )
      ]

  pub reserve-Grown :
      (s : DynBuf) (len : ℕ)
      → IsValid s
      → Grown s (reserve realloc_func s len).1 (reserve realloc_func s len).0 (add_size s.size len)
  unfolding reserve
  reserve-Grown s len v = ground (arith, dbuf_realloc-Grown s (add_size s.size len) v (omega arith))

  -- Growing takes at least half as much again.
  pub dbuf_realloc_half :
      (s : DynBuf) (n : ℕ)
      → s.allocated_size < n
      → n < 2 ^ 62
      → (dbuf_realloc realloc_func s n).0 ≡ true
      → s.allocated_size * 3 / 2 ≤ (dbuf_realloc realloc_func s n).1.allocated_size
  unfolding dbuf_realloc grown_size
  dbuf_realloc_half s n h w e = ground arith
