-- ===== src/Collector/Tests.antt =====
-- The collector on a heap of three objects: 1 is in use and refers to 2, and 3 refers to itself and to 2.
use substrata_swift.Prelude.{ℕ, ◌+◌, ◌<◌, ◌≡◌, ◌↔◌, refl, arith, ◌==◌, if◌then◌else◌, false}
use substrata_swift.Prelude.{some, List, [], ◌∷◌}
use substrata_swift.Collector.{Gc, find_cycles}
use substrata_swift.Collector.Lists.{occ, edges}
use substrata_swift.Collector.Run.{IsHeap, Live, find_cycles-Live}

abbrev refers : ℕ → List ℕ
refers p = if p == 1 then 2 ∷ [] else if p == 3 then 3 ∷ 2 ∷ [] else []

abbrev outside : ℕ → ℕ
outside x = if x == 1 then 1 else 0

abbrev heap : Gc
heap = record {
  ref_count = λ x. outside x + edges refers (3 ∷ 2 ∷ 1 ∷ []) x;
  mark = λ x. false;
  gc_obj_list = 3 ∷ 2 ∷ 1 ∷ [];
  tmp_obj_list = [];
}

heap-IsHeap : IsHeap refers outside heap
heap-IsHeap = record {
  once = λ x. ground arith;
  within = λ p x h i. ground arith;
  clear = λ x h. refl;
  listed = λ x h. ground arith;
  counted = λ x. refl;
}

find_cycles-Live_example :
    (s' : Gc) × (find_cycles refers heap ≡ some s')
    × ((x : ℕ) → occ x s'.gc_obj_list + occ x s'.tmp_obj_list ≡ occ x heap.gc_obj_list)
    × ((x : ℕ) → s'.ref_count x ≡ heap.ref_count x)
    × ((x : ℕ) → (0 < occ x s'.gc_obj_list) ↔ Live refers outside x)
find_cycles-Live_example = find_cycles-Live refers outside heap heap-IsHeap
