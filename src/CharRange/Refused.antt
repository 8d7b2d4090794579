-- ===== src/CharRange/Refused.antt =====
-- The only failure of `cr_op` of libunicode.c is an allocation that is refused.
use Prim.Native.Nat.{max}
use substrata_swift.Prelude.{
  ℕ, ◌+◌, ◌*◌, ◌/◌, ◌≤◌, ◌≡◌, arith, ltb, ◌==◌, Bool, false, true, Bool-cases, inl, inr,
}
use substrata_swift.Prelude.{List, [], ◌∷◌, length, length-append}
use substrata_swift.CharRange.{
  CharRange, len, CharRangeOp, cr_realloc, cr_add_point, toggle, op_loop, cr_op,
}

module _ (allocates : ℕ → Bool) where
  -- A block of at most 6 bytes for each of `m` points was refused, one for a point more than there
  -- were at some time.
  abbrev Asked : ℕ → ℕ → Type 0
  Asked k m = (n : ℕ) × (allocates n ≡ false) × ((k + 1) * 4 ≤ n) × (n ≤ 6 * m)

  toggle_refused :
      (op : CharRangeOp) (i j v : ℕ) (cr : CharRange)
      → (toggle allocates op i j v cr).0 ≡ false
      → Asked (len cr) (len cr + 1)
  unfolding toggle cr_add_point cr_realloc
  toggle_refused op i j v cr h =
      (max (len cr + 1) (cr.size * 3 / 2) * 4, ground arith, ground arith, ground arith)

  toggle_grows :
      (op : CharRangeOp) (i j v : ℕ) (cr : CharRange)
      → (len cr ≤ len (toggle allocates op i j v cr).1)
        × (len (toggle allocates op i j v cr).1 ≤ len cr + 1)
  unfolding toggle cr_add_point cr_realloc
  toggle_grows op i j v cr = ground (arith, length-append cr.points (v ∷ []))

  -- A step is refused, or those behind it are, with the range that it leaves.
  step_refused :
      (op : CharRangeOp) (i j v m total : ℕ) (cr : CharRange)
      → len cr + (m + 1) ≤ total
      → ((toggle allocates op i j v cr).0 ≡ true
          → Asked (len (toggle allocates op i j v cr).1) (len (toggle allocates op i j v cr).1 + m))
      → Asked (len cr) total
  step_refused op i j v m total cr room rest =
      let grows = toggle_grows op i j v cr in
      elim (Bool-cases (toggle allocates op i j v cr).0) [
        | inl done ↦
            (let (n, refused, lo, hi) = rest done in
              (n, refused, omega (arith, lo, grows), omega (arith, hi, grows, room)))
        | inr full ↦
            (let (n, refused, lo, hi) = toggle_refused op i j v cr full in
              (n, refused, lo, omega (arith, hi, room)))
      ]

  op_loop_refused :
      (op : CharRangeOp) (a b : List ℕ) (i j : ℕ) (cr : CharRange)
      → (op_loop allocates op a b i j cr).0 ≡ false
      → Asked (len cr) (len cr + (length a + length b))
  unfolding op_loop
  op_loop_refused op [] [] i j cr h = cc
  op_loop_refused op (v ∷ a) [] i j cr h =
      step_refused op (i + 1) j v (length a + 0) (len cr + (length (v ∷ a) + 0)) cr (omega arith)
        (λ done.
          op_loop_refused op a [] (i + 1) j (toggle allocates op (i + 1) j v cr).1 (rw done at h))
  op_loop_refused op [] (w ∷ b) i j cr h =
      step_refused op i (j + 1) w (0 + length b) (len cr + (0 + length (w ∷ b))) cr (omega arith)
        (λ done.
          op_loop_refused op [] b i (j + 1) (toggle allocates op i (j + 1) w cr).1 (rw done at h))
  op_loop_refused op (v ∷ a) (w ∷ b) i j cr h = elim (Bool-cases (ltb v w)) [
    | inl first ↦
        step_refused op (i + 1) j v (length a + length (w ∷ b))
          (len cr + (length (v ∷ a) + length (w ∷ b))) cr (omega arith)
          (λ done.
            op_loop_refused op a (w ∷ b) (i + 1) j (toggle allocates op (i + 1) j v cr).1
              (rw (first, done) at h))
    | inr later ↦ elim (Bool-cases (v == w)) [
      | inl same ↦
          step_refused op (i + 1) (j + 1) v (length a + length b)
            (len cr + (length (v ∷ a) + length (w ∷ b))) cr (omega arith)
            (λ done.
              op_loop_refused op a b (i + 1) (j + 1) (toggle allocates op (i + 1) (j + 1) v cr).1
                (rw (later, same, done) at h))
      | inr second ↦
          step_refused op i (j + 1) w (length (v ∷ a) + length b)
            (len cr + (length (v ∷ a) + length (w ∷ b))) cr (omega arith)
            (λ done.
              op_loop_refused op (v ∷ a) b i (j + 1) (toggle allocates op i (j + 1) w cr).1
                (rw (later, second, done) at h))
    ]
  ]

  -- `cr_op` returns -1 only if `realloc_func` refused a block that is larger than the points which the
  -- range had before, and has at most 6 bytes for each of these and of the points of the operands.
  pub cr_op_refused :
      (cr : CharRange) (a b : List ℕ) (op : CharRangeOp)
      → (cr_op allocates cr a b op).0 ≡ false
      → (n : ℕ) × (allocates n ≡ false)
        × ((len cr + 1) * 4 ≤ n)
        × (n ≤ 6 * (len cr + (length a + length b)))
  unfolding cr_op
  cr_op_refused cr a b op h = op_loop_refused op a b 0 0 cr (ground arith)
