-- ===== src/Collector/Decref.antt =====
-- What `gc_decref` does: it takes the references between objects off their counts, and sorts the
-- objects by whether anything is left.
use substrata_swift.Prelude.{ℕ, suc, ◌+◌, ◌-◌, ◌<◌, ◌≤◌, ◌≡◌, refl, ◌∙◌, arith, ◌==◌, ==_iff}
use substrata_swift.Prelude.{if◌then◌else◌, true, false, some, List, [], ◌∷◌}
use substrata_swift.Collector.{
  Gc, assign, list_del, to_tmp, gc_decref_child, each, decref_loop, gc_decref,
}
use substrata_swift.Collector.Lists.{occ, occ-append, occ-list_del, edges}

-- In the middle of the loop, with the objects of `rest` to come: every object is in one of the lists,
-- one with a mark is in the second exactly when its count is 0, and the marks are on those passed.
pub record IsSorted (all rest : List ℕ) (s : Gc) : Type 0 where
  pub bag : (x : ℕ) → occ x s.gc_obj_list + occ x s.tmp_obj_list ≡ occ x all
  pub spent : (x : ℕ) → 0 < occ x s.tmp_obj_list → s.ref_count x ≡ 0
  pub kept :
      (x : ℕ) → 0 < occ x all → s.mark x ≡ true → s.ref_count x ≡ 0 → 0 < occ x s.tmp_obj_list
  pub fresh : (x : ℕ) → 0 < occ x rest → s.mark x ≡ false
  pub passed : (x : ℕ) → 0 < occ x all → occ x rest ≡ 0 → s.mark x ≡ true

-- The numbers of an object in the lists when it goes to the second.
to_tmp_lem :
    (p x : ℕ) (s : Gc)
    → (occ x (to_tmp p s).gc_obj_list
        ≡ (if p == x then occ x s.gc_obj_list - 1 else occ x s.gc_obj_list))
      × (occ x (to_tmp p s).tmp_obj_list
          ≡ (if p == x then suc (occ x s.tmp_obj_list - 1) else occ x s.tmp_obj_list))
      × ((to_tmp p s).ref_count x ≡ s.ref_count x)
      × ((to_tmp p s).mark x ≡ s.mark x)
unfolding to_tmp
to_tmp_lem p x s = ground (
  arith,
  occ-list_del x p s.gc_obj_list,
  occ-list_del x p s.tmp_obj_list,
  occ-append x (list_del p s.tmp_obj_list) (p ∷ []),
)

pub decref_child_count :
    (p x : ℕ) (s : Gc)
    → ((gc_decref_child p s).ref_count x ≡ (if p == x then s.ref_count x - 1 else s.ref_count x))
      × ((gc_decref_child p s).mark x ≡ s.mark x)
unfolding gc_decref_child
decref_child_count p x s = ground (
  arith,
  ==_iff p x,
  to_tmp_lem p x (record s { ref_count = assign s.ref_count p (s.ref_count p - 1) }),
)

pub decref_each_count :
    (ps : List ℕ) (x : ℕ) (s : Gc)
    → ((each gc_decref_child ps s).ref_count x ≡ s.ref_count x - occ x ps)
      × ((each gc_decref_child ps s).mark x ≡ s.mark x)
unfolding each
decref_each_count [] x s = (omega arith, refl)
decref_each_count (p ∷ ps) x s =
    ground
      (arith, decref_each_count ps x (gc_decref_child p s), decref_child_count p x s, ==_iff p x)

module _ (all : List ℕ) (once : (x : ℕ) → occ x all ≤ 1) where
  decref_child-IsSorted :
      (rest : List ℕ) (p : ℕ) (s : Gc)
      → 0 < occ p all
      → IsSorted all rest s
      → IsSorted all rest (gc_decref_child p s)
  unfolding gc_decref_child
  decref_child-IsSorted rest p s i v =
      let s' : Gc = record s { ref_count = assign s.ref_count p (s.ref_count p - 1) } in
      record {
        bag = λ x.
            ground
              (arith, v.bag x, v.bag p, v.spent x, v.kept x, once p, to_tmp_lem p x s', ==_iff p x);
        spent = λ x h.
            ground
              (arith, v.bag x, v.bag p, v.spent x, v.kept x, once p, to_tmp_lem p x s', ==_iff p x);
        kept = λ x h h' h''.
            ground
              (arith, v.bag x, v.bag p, v.spent x, v.kept x, once p, to_tmp_lem p x s', ==_iff p x);
        fresh = λ x h. (decref_child_count p x s).1 ∙ v.fresh x h;
        passed = λ x h h'. (decref_child_count p x s).1 ∙ v.passed x h h';
      }

  decref_each-IsSorted :
      (rest ps : List ℕ) (s : Gc)
      → ((x : ℕ) → 0 < occ x ps → 0 < occ x all)
      → IsSorted all rest s
      → IsSorted all rest (each gc_decref_child ps s)
  unfolding each
  decref_each-IsSorted rest [] s i v = v
  decref_each-IsSorted rest (p ∷ ps) s i v =
      decref_each-IsSorted rest ps (gc_decref_child p s) (λ x h. i x (ground (arith, h)))
        (decref_child-IsSorted rest p s (i p (ground (arith, ==_iff p p))) v)

  -- The mark of the object at hand, and its move where its count is 0.
  abbrev marked : ℕ → Gc → Gc
  marked p s = record s { mark = assign s.mark p true }

  marked-IsSorted :
      (p : ℕ) (ps : List ℕ) (s : Gc)
      → occ p (p ∷ ps) ≤ occ p all
      → IsSorted all (p ∷ ps) s
      → IsSorted all ps (if s.ref_count p == 0 then to_tmp p (marked p s) else marked p s)
  marked-IsSorted p ps s i v = record {
    bag = λ x.
        ground
          (arith, v.bag x, v.bag p, once p, to_tmp_lem p x (marked p s), ==_iff p x, ==_iff p p);
    spent =
        λ x h. ground (arith, v.bag x, v.spent x, once p, to_tmp_lem p x (marked p s), ==_iff p x);
    kept = λ x h h' h''. ground (arith, v.kept x, to_tmp_lem p x (marked p s), ==_iff p x);
    fresh = λ x h. ground (arith, v.fresh x, once p, to_tmp_lem p x (marked p s), ==_iff p x);
    passed = λ x h h'. ground (arith, v.passed x, to_tmp_lem p x (marked p s), ==_iff p x);
  }

  module _ (children : ℕ → List ℕ) where
    decref_loop_lem :
        (ps : List ℕ) (s : Gc)
        → ((p x : ℕ) → 0 < occ p all → 0 < occ x (children p) → 0 < occ x all)
        → ((x : ℕ) → occ x ps ≤ occ x all)
        → IsSorted all ps s
        → (s' : Gc) × (decref_loop children ps s ≡ some s')
          × IsSorted all [] s'
          × ((x : ℕ) → s'.ref_count x ≡ s.ref_count x - edges children ps x)
    unfolding decref_loop
    decref_loop_lem [] s within i v = (s, refl, v, λ x. omega arith)
    decref_loop_lem (p ∷ ps) s within i v =
        let here : 0 < occ p (p ∷ ps) = ground (arith, ==_iff p p) in
        let s1 = each gc_decref_child (children p) s in
        let v1 =
          decref_each-IsSorted (p ∷ ps) (children p) s (λ x. within p x (omega (arith, here, i p)))
            v in
        let s2 = if s1.ref_count p == 0 then to_tmp p (marked p s1) else marked p s1 in
        let (s', ran, sorted, counts) =
          decref_loop_lem ps s2 within (λ x. ground (arith, i x))
            (marked-IsSorted p ps s1 (i p) v1) in
        (
          s',
          rw (v.fresh p here, ran) refl,
          sorted,
          λ x.
              ground
                (arith, counts x, decref_each_count (children p) x s, to_tmp_lem p x (marked p s1)),
        )

-- With the objects of the first list all different and unmarked, and their children among them, no
-- assertion fails, the counts go down by the references between the objects, and exactly the objects
-- with nothing left go to the second list.
pub gc_decref_lem :
    (children : ℕ → List ℕ) (s : Gc)
    → ((x : ℕ) → occ x s.gc_obj_list ≤ 1)
    → ((p x : ℕ) → 0 < occ p s.gc_obj_list → 0 < occ x (children p) → 0 < occ x s.gc_obj_list)
    → ((x : ℕ) → 0 < occ x s.gc_obj_list → s.mark x ≡ false)
    → (s' : Gc) × (gc_decref children s ≡ some s')
      × IsSorted s.gc_obj_list [] s'
      × ((x : ℕ) → s'.ref_count x ≡ s.ref_count x - edges children s.gc_obj_list x)
unfolding gc_decref
gc_decref_lem children s once within clear =
    decref_loop_lem s.gc_obj_list once children s.gc_obj_list (record s { tmp_obj_list = [] })
      within (λ x. omega arith)
      (record {
        bag = λ x. omega arith;
        spent = λ x h. absurd (omega arith);
        kept = λ x h h'. ground (arith, clear x);
        fresh = clear;
        passed = λ x h h'. absurd (omega arith);
      })
