-- ===== src/CharRange/Sets.antt =====
-- `cr_op`, `cr_union1`, `cr_union_interval` and `cr_invert` of libunicode.c as set operations.
use substrata_swift.Prelude.{ℕ, ◌+◌, ◌-◌, ◌%◌, ◌^◌, ◌≤◌, ◌<◌, ◌≡◌, refl, sym, ap, ◌∙◌, arith}
use substrata_swift.Prelude.{
  if◌then◌else◌, leb, Bool, true, false, Bool-cases, inl, inr, not, xor, ◌&&◌, ◌||◌,
}
use substrata_swift.Prelude.{All, List, [], ◌∷◌, ◌++◌, length, length-append}
use substrata_swift.CharRange.{CharRange, odd, CharRangeOp, is_in, cr_realloc, cr_init, cr_compress}
use substrata_swift.CharRange.{op_loop, cr_op, cr_union1, cr_union_interval, cr_invert}
use substrata_swift.CharRange.Member.{inside, Ascending, Strict, odd-suc, inside-append}
use substrata_swift.CharRange.Compress.{cr_compress_lem}
use substrata_swift.CharRange.Toggles.{toggles, inside-toggles}
use substrata_swift.CharRange.Op.{toggles-Ascending, odd-toggles}
use substrata_swift.CharRange.Loop.{op_loop_points}

-- Points of a whole range: in ascending order, and an even number of them.
pub record IsRange (ps : List ℕ) : Type 0 where
  pub ascending : Ascending 0 ps
  pub even : odd (length ps) ≡ false

-- What the operations mean for one code point.
unfoldable pub combined : CharRangeOp → Bool → Bool → Bool
combined CharRangeOp.union a b = if a then true else b
combined CharRangeOp.inter a b = if a then b else false
combined CharRangeOp.exclusive a b = if a then not b else b

is_in-combined : (op : CharRangeOp) (a b : Bool) → is_in op a b ≡ combined op a b
unfolding is_in combined
is_in-combined CharRangeOp.union true b = refl
is_in-combined CharRangeOp.union false b = refl
is_in-combined CharRangeOp.inter true b = refl
is_in-combined CharRangeOp.inter false b = refl
is_in-combined CharRangeOp.exclusive true b = refl
is_in-combined CharRangeOp.exclusive false b = refl

is_in_none : (op : CharRangeOp) → is_in op false false ≡ false
unfolding is_in
is_in_none CharRangeOp.union = refl
is_in_none CharRangeOp.inter = refl
is_in_none CharRangeOp.exclusive = refl

odd_zero : odd 0 ≡ false
unfolding odd
odd_zero = refl

odd_one : (n : ℕ) → odd (n + 1) ≡ not (odd n)
unfolding odd
odd_one n = ground arith

Ascending-snoc :
    (lo top : ℕ) (ps : List ℕ)
    → Ascending lo ps
    → All (λ p. p ≤ top) ps
    → lo ≤ top
    → Ascending lo (ps ++ (top ∷ []))
Ascending-snoc lo top [] a h k = (k, tt)
Ascending-snoc lo top (p ∷ ps) a h k = (a.0, Ascending-snoc p top ps a.1 h.1 h.0)

outside :
    (x : ℕ) (i : Bool)
    → x < 2 ^ 32 - 1
    → xor (leb 0 x) (xor i (inside x ((2 ^ 32 - 1) ∷ []))) ≡ not i
unfolding inside
outside x true h = ground arith
outside x false h = ground arith

module _ (allocates : ℕ → Bool) where
  -- The points of `cr_op`, by the `switch` of the code.
  cr_op-Strict :
      (a b : List ℕ) (op : CharRangeOp)
      → IsRange a
      → IsRange b
      → (cr_op allocates cr_init a b op).0 ≡ true
      → Strict 0 (cr_op allocates cr_init a b op).1.points
        × ((x : ℕ)
            → inside x (cr_op allocates cr_init a b op).1.points
              ≡ is_in op (inside x a) (inside x b))
  unfolding cr_op cr_init
  cr_op-Strict a b op ra rb h = elim (Bool-cases (op_loop allocates op a b 0 0 cr_init).0) [
    | inl done ↦ rw done (finished done)
    | inr refused ↦ cc (rw refused at h)
  ]
    where
      points :
          (op_loop allocates op a b 0 0 cr_init).0 ≡ true
          → (op_loop allocates op a b 0 0 cr_init).1.points ≡ toggles op a b false false
      points done =
          rw odd_zero at
            (op_loop_points allocates op a b 0 0 cr_init (rw odd_zero (sym (is_in_none op))) done)

      finished :
          (op_loop allocates op a b 0 0 cr_init).0 ≡ true
          → Strict 0 (cr_compress (op_loop allocates op a b 0 0 cr_init).1).points
            × ((x : ℕ)
                → inside x (cr_compress (op_loop allocates op a b 0 0 cr_init).1).points
                  ≡ is_in op (inside x a) (inside x b))
      finished done =
          let e = points done in
          let (strict, same) =
            cr_compress_lem (op_loop allocates op a b 0 0 cr_init).1
              (rw (e, odd-toggles op a b false false, ra.even, rb.even, is_in_none op))
              (rw e (toggles-Ascending op a b false false 0 ra.ascending rb.ascending)) in
          (
            strict,
            λ x.
                same x
                ∙ rw (
                  e,
                  inside-toggles op x a b false false 0 ra.ascending rb.ascending,
                  is_in_none op,
                ),
          )

  -- For well-formed operands, when it returns 0, `cr_op` on an empty range leaves strictly ascending
  -- points, and a code point is in the result exactly when it is in the union, the intersection or the
  -- symmetric difference of the operands, as the operation says.
  pub cr_op_lem :
      (a b : List ℕ) (op : CharRangeOp)
      → IsRange a
      → IsRange b
      → (cr_op allocates cr_init a b op).0 ≡ true
      → Strict 0 (cr_op allocates cr_init a b op).1.points
        × ((x : ℕ)
            → inside x (cr_op allocates cr_init a b op).1.points
              ≡ combined op (inside x a) (inside x b))
  cr_op_lem a b op ra rb h =
      let (strict, same) = cr_op-Strict a b op ra rb h in
      (strict, λ x. same x ∙ is_in-combined op (inside x a) (inside x b))

  -- For a well-formed range and `c1 <= c2 < UINT32_MAX`, when it returns 0, `cr_union_interval` leaves
  -- strictly ascending points that hold the old code points and those from `c1` to `c2`, both included.
  pub cr_union_interval_lem :
      (cr : CharRange) (c1 c2 : ℕ)
      → IsRange cr.points
      → c1 ≤ c2
      → c2 < 2 ^ 32 - 1
      → (cr_union_interval allocates cr c1 c2).0 ≡ true
      → Strict 0 (cr_union_interval allocates cr c1 c2).1.points
        × ((x : ℕ)
            → inside x (cr_union_interval allocates cr c1 c2).1.points
              ≡ (inside x cr.points || (leb c1 x && leb x c2)))
  unfolding cr_union_interval cr_union1
  cr_union_interval_lem cr c1 c2 r le small h =
      let (strict, same) =
        cr_op-Strict cr.points (c1 ∷ (c2 + 1) % 2 ^ 32 ∷ []) CharRangeOp.union r
          (record { ascending = omega arith; even = unfold odd in refl }) h in
      (
        strict,
        λ x. same x ∙ unfold is_in inside in ap (λ t. inside x cr.points || t) (ground arith),
      )

  invert_points :
      (cr : CharRange)
      → (cr_invert allocates cr).0 ≡ true
      → (cr_invert allocates cr).1.points
        ≡ (cr_compress (record cr { points = 0 ∷ (cr.points ++ ((2 ^ 32 - 1) ∷ [])) })).points
  unfolding cr_invert cr_realloc cr_compress
  invert_points cr h = ground arith

  -- For a well-formed range of points up to `UINT32_MAX`, when it returns 0, `cr_invert` leaves strictly
  -- ascending points that, below `UINT32_MAX`, hold exactly the code points that the range did not.
  pub cr_invert_lem :
      (cr : CharRange)
      → IsRange cr.points
      → All (λ p. p ≤ 2 ^ 32 - 1) cr.points
      → (cr_invert allocates cr).0 ≡ true
      → Strict 0 (cr_invert allocates cr).1.points
        × ((x : ℕ)
            → x < 2 ^ 32 - 1
            → inside x (cr_invert allocates cr).1.points ≡ not (inside x cr.points))
  cr_invert_lem cr r small h =
      let top : List ℕ = (2 ^ 32 - 1) ∷ [] in
      let (strict, same) =
        cr_compress_lem (record cr { points = 0 ∷ (cr.points ++ top) })
          (odd-suc (length (cr.points ++ top))
            ∙ ap not (ap odd (length-append cr.points top) ∙ odd_one (length cr.points))
            ∙ rw r.even)
          (omega arith, Ascending-snoc 0 (2 ^ 32 - 1) cr.points r.ascending small (omega arith)) in
      rw (invert_points cr h) (
        strict,
        λ x below.
            same x
            ∙ unfold inside in
              rw (inside-append x cr.points top) (outside x (inside x cr.points) below),
      )
