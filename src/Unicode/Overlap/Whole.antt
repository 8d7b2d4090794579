-- ===== src/Unicode/Overlap/Whole.antt =====
-- `cr_sort_and_remove_overlap` as a whole: the sort and the loops behind it.
use substrata_swift.Prelude.{◌%◌}
use substrata_swift.Prelude.{ℕ, suc, ◌+◌, ◌≤◌, ◌<◌, ltb, leb, ◌≡◌, refl, sym, ◌∙◌, arith}
use substrata_swift.Prelude.{Bool, ◌&&◌}
use substrata_swift.Prelude.{some, List, [], ◌∷◌, length, All}
use substrata_swift.CharRange.{CharRange}
use substrata_swift.Sort.Same.{count}
use substrata_swift.Sort.Keys.{Keyed, key_at}
use substrata_swift.Sort.Ordered.{IsSorted}
use substrata_swift.Sort.Sorted.{rqsort-IsSorted}
use substrata_swift.Unicode.Overlap.{point_cmp, intervals_of, points_of, remove_overlap}
use substrata_swift.Unicode.Overlap.{cr_sort_and_remove_overlap}
use substrata_swift.Unicode.Overlap.Joined.{in_some, Sorted, Separate, remove_overlap_lem}

abbrev start_of : ℕ × ℕ → ℕ
start_of p = p.0

abbrev backward : ℕ × ℕ → Bool
backward p = ltb p.1 p.0

abbrev holds : ℕ → ℕ × ℕ → Bool
holds x p = leb p.0 x && ltb x p.1

point_cmp-Keyed : Keyed point_cmp start_of
unfolding point_cmp
point_cmp-Keyed = record {
  less = λ p q e. ground arith;
  equal = λ p q e. ground arith;
  greater = λ p q e. ground arith;
}

none_backward : (is : List (ℕ × ℕ)) → All (λ p. p.0 ≤ p.1) is → count backward is ≡ 0
none_backward [] h = refl
none_backward (p ∷ is) h = ground (arith, h.0, none_backward is h.1)

in_some-count : (x : ℕ) (is : List (ℕ × ℕ)) → in_some x is ≡ ltb 0 (count (holds x) is)
unfolding in_some
in_some-count x [] = ground arith
in_some-count x ((p, q) ∷ is) = ground (arith, in_some-count x is)

in_order-Sorted :
    (lo : ℕ) (is : List (ℕ × ℕ))
    → ((k : ℕ) → k < length is → lo ≤ key_at start_of is k)
    → ((a b : ℕ) → a ≤ b → b < length is → key_at start_of is a ≤ key_at start_of is b)
    → count backward is ≡ 0
    → Sorted lo is
unfolding Sorted
in_order-Sorted lo [] low o h = tt
in_order-Sorted lo ((p, q) ∷ is) low o h = (
  low 0 (omega arith),
  ground (arith, h),
  in_order-Sorted p is (λ k l. o 0 (suc k) (omega arith) (omega (arith, l)))
      (λ a b le l. o (suc a) (suc b) (omega (arith, le)) (omega (arith, l))) (ground (arith, h)),
)

-- For an even number of points that are intervals, in any order, of which none ends before it begins,
-- `cr_sort_and_remove_overlap` returns, with intervals of which each begins after the end of the one
-- before, and which hold the same code points.
pub cr_sort_and_remove_overlap_lem :
    (cr : CharRange)
    → length cr.points % 2 ≡ 0
    → All (λ p. p.0 ≤ p.1) (intervals_of cr.points)
    → (is : List (ℕ × ℕ)) × (cr_sort_and_remove_overlap cr
        ≡ some (record cr { points = points_of is }))
      × Separate is
      × ((x : ℕ) → in_some x is ≡ in_some x (intervals_of cr.points))
unfolding cr_sort_and_remove_overlap
cr_sort_and_remove_overlap_lem cr even forward =
    let is = intervals_of cr.points in
    let (ys, e, sorted, same, counts) =
      rqsort-IsSorted start_of (length is) point_cmp point_cmp-Keyed is (omega arith) in
    let in_order =
      ordered ys (length is) (sym same) sorted (counts backward ∙ none_backward is forward) in
    let (separate, inside) = remove_overlap_lem ys in_order in
    (
      remove_overlap ys,
      rw (even, e) refl,
      separate,
      λ x. inside x ∙ in_some-count x ys ∙ rw (counts (holds x)) (sym (in_some-count x is)),
    )
  where
    ordered :
        (ys : List (ℕ × ℕ)) (n : ℕ)
        → n ≡ length ys
        → IsSorted start_of 0 n ys
        → count backward ys ≡ 0
        → Sorted 0 ys
    ordered ys n e s =
        in_order-Sorted 0 ys (λ k l. omega arith)
          (λ a b le l.
            let ea : 0 + a ≡ a = omega arith in
            let eb : 0 + b ≡ b = omega arith in rw (ea, eb) at (s a b le (omega (arith, l, e))))
