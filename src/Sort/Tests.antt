-- ===== src/Sort/Tests.antt =====
-- Runs of the sort.
use Prim.Native.Nat.{compare}
use substrata_swift.Prelude.{ℕ, ◌≡◌, refl, some, List, [], ◌∷◌}
use substrata_swift.Sort.{heapsortx, build_heap, sift, larger_child, order, swap, take_max}
use substrata_swift.Sort.{rqsort, rqsort_loop, segments, split, med3, partition, scan_up, scan_down}
use substrata_swift.Sort.{swap_block, push_segment, insertion_sort, insert_down}
use substrata_swift.Prelude.{Bool, length, arith}
use substrata_swift.Sort.Same.{count}
use substrata_swift.Sort.Runs.{rqsort-Same}
use substrata_swift.Sort.Keys.{Keyed}
use substrata_swift.Sort.Heaps.{Moved}
use substrata_swift.Sort.Ordered.{IsSorted, heapsortx-IsSorted}
use substrata_swift.Sort.Sorted.{rqsort-IsSorted}
use substrata_swift.Sort.Exchange.{exchange_func, exchange_one_int16, exchange_word}

abbrev mixed : List ℕ
mixed = 5 ∷ 3 ∷ 9 ∷ 3 ∷ 1 ∷ 7 ∷ 7 ∷ 0 ∷ 2 ∷ []

abbrev in_order : List ℕ
in_order = 0 ∷ 1 ∷ 2 ∷ 3 ∷ 3 ∷ 5 ∷ 7 ∷ 7 ∷ 9 ∷ []

heap_sorts : heapsortx compare mixed 0 9 ≡ some in_order
unfolding heapsortx build_heap sift larger_child order swap take_max
heap_sorts = refl

sorts : rqsort compare mixed 9 ≡ some in_order
unfolding rqsort rqsort_loop segments split med3 order swap partition scan_up scan_down swap_block
    push_segment insertion_sort insert_down
sorts = refl

exchanges : exchange_func 0 2 (1 ∷ 2 ∷ 3 ∷ 4 ∷ []) 0 2 2 ≡ 3 ∷ 4 ∷ 1 ∷ 2 ∷ []
unfolding exchange_func exchange_one_int16 exchange_word
exchanges = refl

rqsort-Same_example :
    (ys : List ℕ) × (rqsort compare mixed 9 ≡ some ys)
    × (length ys ≡ length mixed)
    × ((q : ℕ → Bool) → count q ys ≡ count q mixed)
rqsort-Same_example = rqsort-Same compare mixed 9 (omega arith)

abbrev itself : ℕ → ℕ
itself n = n

compare-Keyed : Keyed compare itself
compare-Keyed = record {
  less = λ m n e. ground arith;
  equal = λ m n e. ground arith;
  greater = λ m n e. ground arith;
}

heapsortx-IsSorted_example :
    (ys : List ℕ) × (heapsortx compare mixed 1 7 ≡ some ys)
    × IsSorted itself 1 7 ys
    × Moved itself 1 7 mixed ys
heapsortx-IsSorted_example = heapsortx-IsSorted itself 1 compare compare-Keyed mixed 7 (omega arith)

rqsort-IsSorted_example :
    (ys : List ℕ) × (rqsort compare mixed 9 ≡ some ys)
    × IsSorted itself 0 9 ys
    × (length ys ≡ length mixed)
    × ((q : ℕ → Bool) → count q ys ≡ count q mixed)
rqsort-IsSorted_example = rqsort-IsSorted itself 9 compare compare-Keyed mixed (omega arith)
