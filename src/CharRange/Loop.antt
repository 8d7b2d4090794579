-- ===== src/CharRange/Loop.antt =====
-- The loop of `cr_op` of libunicode.c adds the points of `toggles`, unless an allocation is refused.
use mathlib.Core.List.{append_assoc, append-nil}
use substrata_swift.Prelude.{ℕ, ◌+◌, ◌≡◌, refl, sym, ap, ◌∙◌, arith, ltb, ◌==◌, if◌then◌else◌}
use substrata_swift.Prelude.{
  Bool, true, false, Bool-cases, inl, inr, not, List, [], ◌∷◌, ◌++◌, length,
}
use substrata_swift.CharRange.{
  CharRange, len, odd, CharRangeOp, is_in, cr_realloc, cr_add_point, toggle,
}
use substrata_swift.CharRange.{op_loop}
use substrata_swift.CharRange.Member.{odd-suc}
use substrata_swift.CharRange.Toggles.{change, toggles}

module _ (allocates : ℕ → Bool) where
  cr_add_point_points :
      (cr : CharRange) (v : ℕ)
      → (cr_add_point allocates cr v).0 ≡ true
      → (cr_add_point allocates cr v).1.points ≡ cr.points ++ (v ∷ [])
  unfolding cr_add_point cr_realloc
  cr_add_point_points cr v h = ground arith

  toggle_points :
      (op : CharRangeOp) (i j v : ℕ) (cr : CharRange)
      → (toggle allocates op i j v cr).0 ≡ true
      → (toggle allocates op i j v cr).1.points
        ≡ cr.points ++ change (is_in op (odd i) (odd j)) (odd (len cr)) v
  unfolding toggle
  toggle_points op i j v cr h = ground (arith, cr_add_point_points cr v, append-nil cr.points)

  odd-append : (ps : List ℕ) (v : ℕ) → odd (length (ps ++ (v ∷ []))) ≡ not (odd (length ps))
  odd-append [] v = odd-suc 0
  odd-append (p ∷ ps) v =
      odd-suc (length (ps ++ (v ∷ []))) ∙ ap not (odd-append ps v ∙ sym (odd-suc (length ps)))

  -- After a toggle the status of the range is that of the indices.
  toggle_status :
      (op : CharRangeOp) (i j v : ℕ) (cr : CharRange)
      → (toggle allocates op i j v cr).0 ≡ true
      → odd (len (toggle allocates op i j v cr).1) ≡ is_in op (odd i) (odd j)
  toggle_status op i j v cr h =
      rw (toggle_points op i j v cr h) (settled (is_in op (odd i) (odd j)) (odd (len cr)) refl)
    where
      settled :
          (new old : Bool) → odd (len cr) ≡ old → odd (length (cr.points ++ change new old v)) ≡ new
      settled true true e = rw append-nil e
      settled true false e = odd-append cr.points v ∙ ap not e
      settled false true e = odd-append cr.points v ∙ ap not e
      settled false false e = rw append-nil e

  -- A round that adds its point and goes on.
  module _ (op : CharRangeOp) (i j v : ℕ) (cr : CharRange)
      (rest : CharRange → Bool × CharRange) where
    abbrev outcome : Bool × CharRange
    outcome =
        let (done, cr') = toggle allocates op i j v cr in
        let more = rest cr' in if done then more else (false, cr')

    round_points :
        (added : List ℕ) (old : Bool)
        → odd (len cr) ≡ old
        → ((cr' : CharRange)
            → odd (len cr') ≡ is_in op (odd i) (odd j)
            → (rest cr').0 ≡ true
            → (rest cr').1.points ≡ cr'.points ++ added)
        → outcome.0 ≡ true
        → outcome.1.points ≡ cr.points ++ (change (is_in op (odd i) (odd j)) old v ++ added)
    round_points added old e ih h = elim (Bool-cases (toggle allocates op i j v cr).0) [
      | inl done ↦ rw done (
          ih (toggle allocates op i j v cr).1 (toggle_status op i j v cr done) (rw done at h)
          ∙ rw (toggle_points op i j v cr done, e)
              (append_assoc cr.points (change (is_in op (odd i) (odd j)) old v) added))
      | inr refused ↦ cc (rw refused at h)
    ]

  odd_next : (i : ℕ) → odd (i + 1) ≡ not (odd i)
  unfolding odd
  odd_next i = ground arith

  -- While no allocation is refused, the loop adds exactly the points of `toggles`.
  pub op_loop_points :
      (op : CharRangeOp) (a b : List ℕ) (i j : ℕ) (cr : CharRange)
      → odd (len cr) ≡ is_in op (odd i) (odd j)
      → (op_loop allocates op a b i j cr).0 ≡ true
      → (op_loop allocates op a b i j cr).1.points ≡ cr.points ++ toggles op a b (odd i) (odd j)
  unfolding op_loop toggles
  op_loop_points op [] [] i j cr e h = sym (append-nil cr.points)
  op_loop_points op (v ∷ a) [] i j cr e h = rw odd_next at (
      round_points op (i + 1) j v cr (λ cr'. op_loop allocates op a [] (i + 1) j cr')
        (toggles op a [] (odd (i + 1)) (odd j)) (is_in op (odd i) (odd j)) e
        (λ cr' s k. op_loop_points op a [] (i + 1) j cr' s k) h)
  op_loop_points op [] (w ∷ b) i j cr e h = rw odd_next at (
      round_points op i (j + 1) w cr (λ cr'. op_loop allocates op [] b i (j + 1) cr')
        (toggles op [] b (odd i) (odd (j + 1))) (is_in op (odd i) (odd j)) e
        (λ cr' s k. op_loop_points op [] b i (j + 1) cr' s k) h)
  op_loop_points op (v ∷ a) (w ∷ b) i j cr e h = elim (Bool-cases (ltb v w)) [
    | inl first ↦ rw first (
        rw odd_next at (
          round_points op (i + 1) j v cr (λ cr'. op_loop allocates op a (w ∷ b) (i + 1) j cr')
            (toggles op a (w ∷ b) (odd (i + 1)) (odd j)) (is_in op (odd i) (odd j)) e
            (λ cr' s k. op_loop_points op a (w ∷ b) (i + 1) j cr' s k) (rw first at h)))
    | inr later ↦ elim (Bool-cases (v == w)) [
      | inl same ↦
          rw (later, same)
            (rw (odd_next i, odd_next j) at
              (round_points op (i + 1) (j + 1) v cr
                (λ cr'. op_loop allocates op a b (i + 1) (j + 1) cr')
                (toggles op a b (odd (i + 1)) (odd (j + 1))) (is_in op (odd i) (odd j)) e
                (λ cr' s k. op_loop_points op a b (i + 1) (j + 1) cr' s k) (rw (later, same) at h)))
      | inr second ↦
          rw (later, second)
            (rw odd_next at (
              round_points op i (j + 1) w cr (λ cr'. op_loop allocates op (v ∷ a) b i (j + 1) cr')
                (toggles op (v ∷ a) b (odd i) (odd (j + 1))) (is_in op (odd i) (odd j)) e
                (λ cr' s k. op_loop_points op (v ∷ a) b i (j + 1) cr' s k)
                (rw (later, second) at h)))
    ]
  ]
