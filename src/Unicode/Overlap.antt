-- ===== src/Unicode/Overlap.antt =====
-- `point_cmp` and `cr_sort_and_remove_overlap` in Sources/SubstrataQuickJS/libunicode.c: the points of
-- a range, taken as intervals in any order that may overlap, are sorted by their first ends and the
-- overlaps are joined.
pub mod Joined
pub mod Whole
use Prim.Native.Nat.{compare, Ordering}
use substrata_swift.Prelude.{ℕ, ◌%◌, ◌==◌, ltb, leb, if◌then◌else◌}
use substrata_swift.Prelude.{Option, none, some, ◌>>=◌, List, [], ◌∷◌, length}
use substrata_swift.CharRange.{CharRange}
use substrata_swift.Sort.{rqsort}

-- An element of the sort is a pair of points; the sign of `(v1 > v2) - (v1 < v2)` for the first ones.
unfoldable pub point_cmp : ℕ × ℕ → ℕ × ℕ → Ordering
point_cmp p1 p2 = compare p1.0 p2.0

-- The points as `cr->len / 2` elements of two points.
unfoldable pub intervals_of : List ℕ → List (ℕ × ℕ)
intervals_of [] = []
intervals_of (p ∷ []) = []
intervals_of (p ∷ q ∷ ps) = (p, q) ∷ intervals_of ps

unfoldable pub points_of : List (ℕ × ℕ) → List ℕ
points_of [] = []
points_of ((p, q) ∷ is) = p ∷ q ∷ points_of is

-- The loops, with the interval from `start` to `end` at hand. The stores at `j` and `j + 1` stay
-- behind `i`, so that the points read are those of the sort.
unfoldable pub join_overlaps : ℕ → ℕ → List (ℕ × ℕ) → List (ℕ × ℕ)
join_overlaps start end [] = (start, end) ∷ []
join_overlaps start end ((start1, end1) ∷ is) =
    let rest =
      join_overlaps (if ltb end start1 then start1 else start)
        (if ltb end start1 then end1 else if leb end1 end then end else end1) is in
    if ltb end start1 then (start, end) ∷ rest else rest

unfoldable pub remove_overlap : List (ℕ × ℕ) → List (ℕ × ℕ)
remove_overlap [] = []
remove_overlap ((start, end) ∷ is) = join_overlaps start end is

-- With an odd number of points the loop reads a point past the end.
unfoldable pub cr_sort_and_remove_overlap : CharRange → Option CharRange
cr_sort_and_remove_overlap cr =
    if length cr.points % 2 == 0
    then (let is = intervals_of cr.points in
        do
          sorted ← rqsort point_cmp is (length is)
          some (record cr { points = points_of (remove_overlap sorted) }))
    else none
