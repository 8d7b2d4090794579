-- ===== src/Collector/Keeps.antt =====
-- `gc_scan` keeps only what is in use.
use substrata_swift.Prelude.{ℕ, zero, suc, ◌+◌, ◌<◌, ◌≡◌, refl, ap, arith, ◌==◌, ==_iff}
use substrata_swift.Prelude.{false, some, List, [], ◌∷◌, ◌++◌}
use substrata_swift.Prelude.{Bool-cases, inl, inr}
use substrata_swift.Collector.{Gc, assign, gc_scan_incref_child, each}
use substrata_swift.Collector.{scan_loop}
use substrata_swift.Collector.Lists.{occ, occ-append}
use substrata_swift.Collector.Scan.{to_gc_lem}

-- What holds of the objects in use and passes to children holds of all that the loop keeps.
module _ (children : ℕ → List ℕ) (P : ℕ → Type 0)
    (passes_on : (p x : ℕ) → P p → 0 < occ x (children p) → P x) where
  abbrev pub Keeps : List ℕ → Gc → Type 0
  Keeps passed s = ((x : ℕ) → 0 < occ x passed → P x) × ((x : ℕ) → 0 < occ x s.gc_obj_list → P x)

  incref_child-Keeps :
      (passed : List ℕ) (p : ℕ) (s : Gc)
      → P p
      → Keeps passed s
      → Keeps passed (gc_scan_incref_child p s)
  unfolding gc_scan_incref_child
  incref_child-Keeps passed p s here k = (
    k.0,
    λ x h. elim (Bool-cases (p == x)) [
      | inl e ↦ rw (← ((==_iff p x).0 e)) here
      | inr n ↦ k.1 x (ground (arith, n, to_gc_lem p x s', ==_iff p x))
    ],
  )
    where
      s' : Gc
      s' = record s { ref_count = assign s.ref_count p (s.ref_count p + 1) }

  incref_each-Keeps :
      (passed ps : List ℕ) (s : Gc)
      → ((x : ℕ) → 0 < occ x ps → P x)
      → Keeps passed s
      → Keeps passed (each gc_scan_incref_child ps s)
  unfolding each
  incref_each-Keeps passed [] s h k = k
  incref_each-Keeps passed (p ∷ ps) s h k =
      incref_each-Keeps passed ps (gc_scan_incref_child p s) (λ x i. h x (ground (arith, i)))
        (incref_child-Keeps passed p s (h p (ground (arith, ==_iff p p))) k)

  abbrev moved : ℕ → List ℕ → Gc → Gc
  moved p ps s = record s { gc_obj_list = ps; mark = assign s.mark p false }

  kept :
      (passed : List ℕ) (p : ℕ)
      → ((x : ℕ) → 0 < occ x passed → P x)
      → P p
      → (x : ℕ) → 0 < occ x (passed ++ (p ∷ []))
      → P x
  kept passed p k here x i = elim (Bool-cases (p == x)) [
    | inl e ↦ rw (← ((==_iff p x).0 e)) here
    | inr n ↦ k x (ground (arith, n, occ-append x passed (p ∷ [])))
  ]

  pub scan_loop-Keeps :
      (n : ℕ) (passed : List ℕ) (s s' : Gc) (todo : List ℕ)
      → s.gc_obj_list ≡ todo
      → Keeps passed s
      → scan_loop children n passed s ≡ some s'
      → (x : ℕ) → 0 < occ x s'.gc_obj_list
      → P x
  unfolding scan_loop
  scan_loop-Keeps zero passed s s' [] e k h =
      let same : record s { gc_obj_list = passed } ≡ s' = ground (arith, rw (e, scan_loop) at h) in
      rw (← same) k.0
  scan_loop-Keeps (suc n) passed s s' [] e k h =
      let same : record s { gc_obj_list = passed } ≡ s' = ground (arith, rw (e, scan_loop) at h) in
      rw (← same) k.0
  scan_loop-Keeps zero passed s s' (p ∷ ps) e k h = cc (rw (e, scan_loop) at h)
  scan_loop-Keeps (suc n) passed s s' (p ∷ ps) e k h =
      let here : P p = k.1 p (ground (arith, ap (occ p) e, ==_iff p p)) in
      let k1 : Keeps (passed ++ (p ∷ [])) (moved p ps s) =
        (kept passed p k.0 here, λ x i. k.1 x (ground (arith, ap (occ x) e))) in
      let k2 =
        incref_each-Keeps (passed ++ (p ∷ [])) (children p) (moved p ps s) (λ x. passes_on p x here)
          k1 in
      elim (Bool-cases (s.ref_count p == 0)) [
        | inl dead ↦ cc (rw (e, scan_loop, dead) at h)
        | inr alive ↦
            scan_loop-Keeps n (passed ++ (p ∷ []))
              (each gc_scan_incref_child (children p) (moved p ps s)) s'
              (each gc_scan_incref_child (children p) (moved p ps s)).gc_obj_list refl k2
              (rw (e, scan_loop, alive) at h)
      ]
