-- ===== src/Unicode/Overlap/Joined.antt =====
-- The loops of `cr_sort_and_remove_overlap` keep the set of code points and leave disjoint intervals.
use substrata_swift.Prelude.{ℕ, ◌≤◌, ◌<◌, ltb, leb, ◌≡◌, refl, arith, Bool, false, ◌&&◌, ◌||◌}
use substrata_swift.Prelude.{List, [], ◌∷◌}
use substrata_swift.Unicode.Overlap.{join_overlaps, remove_overlap}

-- Whether `x` is in one of the intervals, each without its end.
unfoldable pub in_some : ℕ → List (ℕ × ℕ) → Bool
in_some x [] = false
in_some x ((p, q) ∷ is) = (leb p x && ltb x q) || in_some x is

-- The first ends ascend from `lo` on, and no interval ends before it begins.
unfoldable pub Sorted : ℕ → List (ℕ × ℕ) → Type 0
Sorted lo [] = Unit
Sorted lo ((p, q) ∷ is) = (lo ≤ p) × (p ≤ q) × Sorted p is

-- Each interval begins after `lo`, the end of the one before.
unfoldable pub Disjoint : ℕ → List (ℕ × ℕ) → Type 0
Disjoint lo [] = Unit
Disjoint lo ((p, q) ∷ is) = (lo < p) × (p ≤ q) × Disjoint q is

Sorted-lower : (lo lo' : ℕ) (is : List (ℕ × ℕ)) → lo' ≤ lo → Sorted lo is → Sorted lo' is
unfolding Sorted
Sorted-lower lo lo' [] h s = tt
Sorted-lower lo lo' ((p, q) ∷ is) h s = (omega arith, s.1, s.2)

join_overlaps_inside :
    (x start end : ℕ) (is : List (ℕ × ℕ))
    → start ≤ end
    → Sorted start is
    → in_some x (join_overlaps start end is) ≡ ((leb start x && ltb x end) || in_some x is)
unfolding join_overlaps in_some Sorted
join_overlaps_inside x start end [] h s = ground arith
join_overlaps_inside x start end ((p, q) ∷ is) h s =
    let apart = join_overlaps_inside x p q is s.1 s.2 in
    let within = join_overlaps_inside x start end is h (Sorted-lower p start is s.0 s.2) in
    let longer =
      join_overlaps_inside x start q is (omega arith) (Sorted-lower p start is s.0 s.2) in
    ground arith

join_overlaps-Disjoint :
    (lo start end : ℕ) (is : List (ℕ × ℕ))
    → lo < start
    → start ≤ end
    → Sorted start is
    → Disjoint lo (join_overlaps start end is)
unfolding join_overlaps Sorted Disjoint
join_overlaps-Disjoint lo start end [] l h s = (l, h, tt)
join_overlaps-Disjoint lo start end ((p, q) ∷ is) l h s =
    let within = join_overlaps-Disjoint lo start end is l h (Sorted-lower p start is s.0 s.2) in
    let longer =
      join_overlaps-Disjoint lo start q is l (omega arith) (Sorted-lower p start is s.0 s.2) in
    ground (arith, join_overlaps-Disjoint end p q is)

-- No interval ends before it begins, and each begins after the end of the one before.
unfoldable pub Separate : List (ℕ × ℕ) → Type 0
Separate [] = Unit
Separate ((p, q) ∷ is) = (p ≤ q) × Disjoint q is

join_overlaps-Separate :
    (start end : ℕ) (is : List (ℕ × ℕ))
    → start ≤ end
    → Sorted start is
    → Separate (join_overlaps start end is)
unfolding join_overlaps Sorted Separate Disjoint
join_overlaps-Separate start end [] h s = (h, tt)
join_overlaps-Separate start end ((p, q) ∷ is) h s =
    let within = join_overlaps-Separate start end is h (Sorted-lower p start is s.0 s.2) in
    let longer =
      join_overlaps-Separate start q is (omega arith) (Sorted-lower p start is s.0 s.2) in
    ground (arith, join_overlaps-Disjoint end p q is)

-- For intervals whose first ends ascend and that do not end before they begin, the loops of
-- `cr_sort_and_remove_overlap` keep the set of code points, and leave intervals of which each begins
-- after the end of the one before.
pub remove_overlap_lem :
    (is : List (ℕ × ℕ))
    → Sorted 0 is
    → Separate (remove_overlap is) × ((x : ℕ) → in_some x (remove_overlap is) ≡ in_some x is)
unfolding remove_overlap Sorted Separate in_some
remove_overlap_lem [] s = (tt, λ x. refl)
remove_overlap_lem ((p, q) ∷ is) s =
    (join_overlaps-Separate p q is s.1 s.2, λ x. join_overlaps_inside x p q is s.1 s.2)
