-- ===== src/Collector/Scan.antt =====
-- What `gc_scan` does: it takes the objects that are in use back from the second list, and gives every
-- object its count back.
use substrata_swift.Prelude.{
  ℕ, zero, suc, ◌+◌, ◌-◌, ◌<◌, ◌≤◌, ◌≡◌, refl, ap, ◌∙◌, arith, ◌==◌, ==_iff,
}
use substrata_swift.Prelude.{if◌then◌else◌, false, some, List, [], ◌∷◌, ◌++◌, length}
use substrata_swift.Prelude.{length-append}
use substrata_swift.Collector.{
  Gc, assign, list_del, to_gc, gc_scan_incref_child, gc_scan_incref_child2, each,
}
use substrata_swift.Collector.{scan_loop, restore_loop}
use substrata_swift.Collector.Lists.{
  occ, occ-append, occ-list_del, length-list_del, length-list_del_absent,
}
use substrata_swift.Collector.Lists.{edges, edges-append}

-- In the middle of the first loop: every object is before the one at hand, from it on, or in the second
-- list, and there exactly when its count is 0.
pub record IsSplit (all passed : List ℕ) (s : Gc) : Type 0 where
  pub bag : (x : ℕ) → occ x passed + (occ x s.gc_obj_list + occ x s.tmp_obj_list) ≡ occ x all
  pub spent : (x : ℕ) → 0 < occ x s.tmp_obj_list → s.ref_count x ≡ 0
  pub live : (x : ℕ) → 0 < occ x all → s.ref_count x ≡ 0 → 0 < occ x s.tmp_obj_list

-- What the loop has before it.
abbrev pub size : Gc → ℕ
size s = length s.gc_obj_list + length s.tmp_obj_list

pub to_gc_lem :
    (p x : ℕ) (s : Gc)
    → (occ x (to_gc p s).gc_obj_list
        ≡ (if p == x then suc (occ x s.gc_obj_list - 1) else occ x s.gc_obj_list))
      × (occ x (to_gc p s).tmp_obj_list
          ≡ (if p == x then occ x s.tmp_obj_list - 1 else occ x s.tmp_obj_list))
      × ((to_gc p s).ref_count x ≡ s.ref_count x)
unfolding to_gc
to_gc_lem p x s = ground (
  arith,
  occ-list_del x p s.gc_obj_list,
  occ-list_del x p s.tmp_obj_list,
  occ-append x (list_del p s.gc_obj_list) (p ∷ []),
)

size-to_gc :
    (p : ℕ) (s : Gc)
    → occ p s.gc_obj_list ≡ 0
    → 0 < occ p s.tmp_obj_list
    → size (to_gc p s) ≡ size s
unfolding to_gc
size-to_gc p s h h' = omega (
  arith,
  length-append (list_del p s.gc_obj_list) (p ∷ []),
  length-list_del_absent p s.gc_obj_list h,
  length-list_del p s.tmp_obj_list h',
)

incref_child_count :
    (p x : ℕ) (s : Gc)
    → (gc_scan_incref_child p s).ref_count x ≡ (if p == x then s.ref_count x + 1 else s.ref_count x)
unfolding gc_scan_incref_child
incref_child_count p x s = ground (
  arith,
  ==_iff p x,
  to_gc_lem p x (record s { ref_count = assign s.ref_count p (s.ref_count p + 1) }),
)

incref_each_count :
    (ps : List ℕ) (x : ℕ) (s : Gc)
    → (each gc_scan_incref_child ps s).ref_count x ≡ s.ref_count x + occ x ps
unfolding each
incref_each_count [] x s = omega arith
incref_each_count (p ∷ ps) x s =
    ground (
      arith,
      incref_each_count ps x (gc_scan_incref_child p s),
      incref_child_count p x s,
      ==_iff p x,
    )

module _ (all : List ℕ) (once : (x : ℕ) → occ x all ≤ 1) where
  incref_child-IsSplit :
      (passed : List ℕ) (p : ℕ) (s : Gc)
      → 0 < occ p all
      → IsSplit all passed s
      → IsSplit all passed (gc_scan_incref_child p s) × (size (gc_scan_incref_child p s) ≡ size s)
  unfolding gc_scan_incref_child
  incref_child-IsSplit passed p s i v =
      let s' : Gc = record s { ref_count = assign s.ref_count p (s.ref_count p + 1) } in
      (
        record {
          bag = λ x.
              ground (arith, v.bag x, v.live x, once p, to_gc_lem p x s', ==_iff p x, ==_iff p p);
          spent = λ x h.
              ground (arith, v.bag x, v.spent x, once p, to_gc_lem p x s', ==_iff p x, ==_iff p p);
          live = λ x h h'. ground (arith, v.live x, to_gc_lem p x s', ==_iff p x, ==_iff p p);
        },
        ground (arith, v.live p i, v.bag p, once p, size-to_gc p s', ==_iff p p),
      )

  incref_each-IsSplit :
      (passed ps : List ℕ) (s : Gc)
      → ((x : ℕ) → 0 < occ x ps → 0 < occ x all)
      → IsSplit all passed s
      → IsSplit all passed (each gc_scan_incref_child ps s)
        × (size (each gc_scan_incref_child ps s) ≡ size s)
  unfolding each
  incref_each-IsSplit passed [] s i v = (v, refl)
  incref_each-IsSplit passed (p ∷ ps) s i v =
      let (v1, e1) = incref_child-IsSplit passed p s (i p (ground (arith, ==_iff p p))) v in
      let (v2, e2) =
        incref_each-IsSplit passed ps (gc_scan_incref_child p s) (λ x h. i x (ground (arith, h)))
          v1 in
      (v2, e2 ∙ e1)

  -- The object at hand, passed.
  abbrev next_state : ℕ → List ℕ → Gc → Gc
  next_state p ps s = record s { gc_obj_list = ps; mark = assign s.mark p false }

  next-IsSplit :
      (passed : List ℕ) (p : ℕ) (ps : List ℕ) (s : Gc)
      → s.gc_obj_list ≡ p ∷ ps
      → IsSplit all passed s
      → IsSplit all (passed ++ (p ∷ [])) (next_state p ps s)
        × ((s.ref_count p == 0) ≡ false)
        × (0 < occ p all)
  next-IsSplit passed p ps s e v =
      let counted : (x : ℕ) → occ x s.gc_obj_list ≡ occ x (p ∷ ps) = λ x. ap (occ x) e in
      (
        record {
          bag = λ x. ground (arith, v.bag x, counted x, occ-append x passed (p ∷ []));
          spent = v.spent;
          live = v.live;
        },
        ground (arith, v.bag p, counted p, v.live p, once p, ==_iff p p),
        ground (arith, v.bag p, counted p, ==_iff p p),
      )

  module _ (children : ℕ → List ℕ)
      (within : (p x : ℕ) → 0 < occ p all → 0 < occ x (children p) → 0 < occ x all) where
    -- What the first loop ends with.
    abbrev pub Ended : List ℕ → Gc → Gc → Type 0
    Ended passed s s' =
        ((x : ℕ) → occ x s'.gc_obj_list + occ x s'.tmp_obj_list ≡ occ x all)
        × ((x : ℕ) → 0 < occ x s'.tmp_obj_list → s'.ref_count x ≡ 0)
        × ((x : ℕ)
            → s'.ref_count x + edges children passed x
              ≡ s.ref_count x + edges children s'.gc_obj_list x)

    pub scan_loop_lem :
        (n : ℕ) (passed : List ℕ) (s : Gc) (todo : List ℕ)
        → s.gc_obj_list ≡ todo
        → IsSplit all passed s
        → size s ≤ n
        → (s' : Gc) × (scan_loop children n passed s ≡ some s') × Ended passed s s'
    unfolding scan_loop
    scan_loop_lem zero passed s [] e v h = (
      record s { gc_obj_list = passed },
      rw (e, scan_loop) refl,
      (λ x. ground (arith, v.bag x, ap (occ x) e), v.spent, λ x. refl),
    )
    scan_loop_lem (suc n) passed s [] e v h = (
      record s { gc_obj_list = passed },
      rw (e, scan_loop) refl,
      (λ x. ground (arith, v.bag x, ap (occ x) e), v.spent, λ x. refl),
    )
    scan_loop_lem zero passed s (p ∷ ps) e v h = absurd (ground (arith, ap length e))
    scan_loop_lem (suc n) passed s (p ∷ ps) e v h =
        let (v1, positive, here) = next-IsSplit passed p ps s e v in
        let (v2, same) =
          incref_each-IsSplit (passed ++ (p ∷ [])) (children p) (next_state p ps s)
            (λ x. within p x here) v1 in
        let (s', ran, (bag, spent, counts)) =
          scan_loop_lem n (passed ++ (p ∷ []))
            (each gc_scan_incref_child (children p) (next_state p ps s))
            (each gc_scan_incref_child (children p) (next_state p ps s)).gc_obj_list refl v2
            (ground (arith, ap length e, same, h)) in
        (
          s',
          rw (e, scan_loop, positive) ran,
          (
            bag,
            spent,
            λ x. ground (
              arith,
              counts x,
              edges-append children passed (p ∷ []) x,
              incref_each_count (children p) x (next_state p ps s),
            ),
          ),
        )

incref_child2_each :
    (ps : List ℕ) (x : ℕ) (s : Gc)
    → ((each gc_scan_incref_child2 ps s).ref_count x ≡ s.ref_count x + occ x ps)
      × ((each gc_scan_incref_child2 ps s).gc_obj_list ≡ s.gc_obj_list)
      × ((each gc_scan_incref_child2 ps s).tmp_obj_list ≡ s.tmp_obj_list)
unfolding each gc_scan_incref_child2
incref_child2_each [] x s = (omega arith, refl, refl)
incref_child2_each (p ∷ ps) x s =
    let (c, g, t) = incref_child2_each ps x (gc_scan_incref_child2 p s) in
    (ground (arith, c, ==_iff p x), g, t)

pub restore_loop_lem :
    (children : ℕ → List ℕ) (ps : List ℕ) (x : ℕ) (s : Gc)
    → ((restore_loop children ps s).ref_count x ≡ s.ref_count x + edges children ps x)
      × ((restore_loop children ps s).gc_obj_list ≡ s.gc_obj_list)
      × ((restore_loop children ps s).tmp_obj_list ≡ s.tmp_obj_list)
unfolding restore_loop
restore_loop_lem children [] x s = (omega arith, refl, refl)
restore_loop_lem children (p ∷ ps) x s =
    let (c, g, t) = restore_loop_lem children ps x (each gc_scan_incref_child2 (children p) s) in
    let (c', g', t') = incref_child2_each (children p) x s in (omega (arith, c, c'), g ∙ g', t ∙ t')
