-- ===== src/Collector/Run.antt =====
-- `gc_decref` and `gc_scan` together find garbage only, and leave the counts as they were.
use substrata_swift.Prelude.{ℕ, ◌+◌, ◌<◌, ◌≤◌, ◌≡◌, refl, sym, ap, ◌∙◌, arith}
use substrata_swift.Prelude.{◌↔◌, ◌==◌, ==_iff, Bool-cases, inl, inr}
use substrata_swift.Prelude.{false, some, List, [], ◌∷◌, ◌++◌}
use substrata_swift.Collector.{Gc, gc_scan, restore_loop, find_cycles}
use substrata_swift.Collector.Lists.{occ, occ-append, edges, edges-append, edges_same}
use substrata_swift.Collector.Decref.{gc_decref_lem}
use substrata_swift.Collector.Scan.{IsSplit, size, scan_loop_lem, restore_loop_lem}
use substrata_swift.Collector.Keeps.{scan_loop-Keeps}

-- The objects are all different and without marks, their children are objects, and the count of an
-- object is that of the references from objects and of `outside` ones, which lead to objects.
pub record IsHeap (children : ℕ → List ℕ) (outside : ℕ → ℕ) (s : Gc) : Type 0 where
  pub once : (x : ℕ) → occ x s.gc_obj_list ≤ 1
  pub within :
      (p x : ℕ) → 0 < occ p s.gc_obj_list → 0 < occ x (children p) → 0 < occ x s.gc_obj_list
  pub clear : (x : ℕ) → 0 < occ x s.gc_obj_list → s.mark x ≡ false
  pub listed : (x : ℕ) → 0 < outside x → 0 < occ x s.gc_obj_list
  pub counted : (x : ℕ) → s.ref_count x ≡ outside x + edges children s.gc_obj_list x

-- An object in use: with a reference from outside, or from an object in use.
pub data Live (children : ℕ → List ℕ) (outside : ℕ → ℕ) : ℕ → Type 0 where
  root : {x : ℕ} → 0 < outside x → Live children outside x
  from :
      {x : ℕ} (p : ℕ) → Live children outside p → 0 < occ x (children p) → Live children outside x

-- In a heap whose counts are right, the passes end with no assertion failed. Every object is then in
-- one of the lists, with the count that it had. What is in `tmp_obj_list`, and is going to be freed,
-- has no reference from outside, and none from an object that stays.
find_cycles_lem :
    (children : ℕ → List ℕ) (outside : ℕ → ℕ) (s : Gc)
    → IsHeap children outside s
    → (s' : Gc) × (find_cycles children s ≡ some s')
      × ((x : ℕ) → occ x s'.gc_obj_list + occ x s'.tmp_obj_list ≡ occ x s.gc_obj_list)
      × ((x : ℕ) → s'.ref_count x ≡ s.ref_count x)
      × ((x : ℕ)
          → 0 < occ x s'.tmp_obj_list
          → (outside x ≡ 0) × (edges children s'.gc_obj_list x ≡ 0))
      × ((x : ℕ) → 0 < occ x s'.gc_obj_list → Live children outside x)
unfolding find_cycles gc_scan
find_cycles_lem children outside s v =
    let all = s.gc_obj_list in
    let (s1, ran1, sorted, down) = gc_decref_lem children s v.once v.within v.clear in
    let split : IsSplit all [] s1 = record {
      bag = λ x. omega (arith, sorted.bag x);
      spent = sorted.spent;
      live = λ x h h'. sorted.kept x h (sorted.passed x h refl) h';
    } in
    let (s2, ran2, (bag, spent, up)) =
      scan_loop_lem all v.once children v.within (size s1) [] s1 s1.gc_obj_list refl split
        (omega arith) in
    let back = λ (x : ℕ). restore_loop_lem children s2.tmp_obj_list x s2 in
    let every : (x : ℕ)
        → edges children s2.gc_obj_list x + edges children s2.tmp_obj_list x
          ≡ edges children all x =
      λ x.
        sym (edges-append children s2.gc_obj_list s2.tmp_obj_list x)
        ∙ edges_same children (s2.gc_obj_list ++ s2.tmp_obj_list) all
            (λ y. occ-append y s2.gc_obj_list s2.tmp_obj_list ∙ bag y) x in
    let live =
      scan_loop-Keeps children (Live children outside) (λ p x l i. from p l i) (size s1) [] s1 s2
        s1.gc_obj_list refl
        (
          λ x h. absurd (omega arith),
          λ x h. root (
              ground (
                arith,
                down x,
                v.counted x,
                sorted.bag x,
                v.once x,
                sorted.passed x,
                sorted.kept x,
              )),
        )
        ran2 in
    (
      restore_loop children s2.tmp_obj_list s2,
      rw (ran1, ran2) refl,
      λ x. rw ((back x).1, (back x).2) (bag x),
      λ x. omega (arith, (back x).0, down x, up x, v.counted x, every x),
      λ x.
          rw ((back x).1, (back x).2)
            (λ h. (
              omega (arith, spent x h, down x, up x, v.counted x),
              omega (arith, spent x h, down x, up x),
            )),
      λ x. rw ((back x).1) (live x),
    )

-- An edge from a kept object is counted.
edges-child :
    (children : ℕ → List ℕ) (p x : ℕ) (ps : List ℕ)
    → 0 < occ p ps
    → 0 < occ x (children p)
    → 0 < edges children ps x
edges-child children p x [] h i = omega (arith, h)
edges-child children p x (q ∷ ps) h i = elim (Bool-cases (q == p)) [
  | inl e ↦
      (let same : occ x (children q) ≡ occ x (children p) =
          ap (λ t. occ x (children t)) ((==_iff q p).0 e) in
        omega (arith, same, i))
  | inr n ↦ omega (arith, edges-child children p x ps (ground (arith, n, h)) i)
]

-- In a heap whose counts are right, the passes end with no assertion failed. Every object is then in
-- one of the lists, with the count that it had, and it stays exactly if it is in use: `tmp_obj_list`,
-- which is going to be freed, is what no reference from outside leads to.
pub find_cycles-Live :
    (children : ℕ → List ℕ) (outside : ℕ → ℕ) (s : Gc)
    → IsHeap children outside s
    → (s' : Gc) × (find_cycles children s ≡ some s')
      × ((x : ℕ) → occ x s'.gc_obj_list + occ x s'.tmp_obj_list ≡ occ x s.gc_obj_list)
      × ((x : ℕ) → s'.ref_count x ≡ s.ref_count x)
      × ((x : ℕ) → (0 < occ x s'.gc_obj_list) ↔ Live children outside x)
find_cycles-Live children outside s v =
    let (s', ran, bag, counts, dead, live) = find_cycles_lem children outside s v in
    (s', ran, bag, counts, λ x. (live x, λ l. (stays s' bag dead x l).1))
  where
    stays :
        (s' : Gc)
        → ((x : ℕ) → occ x s'.gc_obj_list + occ x s'.tmp_obj_list ≡ occ x s.gc_obj_list)
        → ((x : ℕ)
            → 0 < occ x s'.tmp_obj_list
            → (outside x ≡ 0) × (edges children s'.gc_obj_list x ≡ 0))
        → (x : ℕ) → Live children outside x
        → (0 < occ x s.gc_obj_list) × (0 < occ x s'.gc_obj_list)
    stays s' bag dead x (root h) = (v.listed x h, ground (arith, bag x, dead x, v.listed x h))
    stays s' bag dead x (from p l h) =
        let (listed, kept) = stays s' bag dead p l in
        let child = v.within p x listed h in
        (
          child,
          ground (arith, bag x, dead x, child, edges-child children p x s'.gc_obj_list kept h),
        )
