-- ===== src/Instances/Construct.antt =====
-- What `typedConstruct` does to the object that it makes, to its instance, and to all others.
use substrata_swift.Prelude.{ℕ, ◌<◌, ◌≤◌, ◌≡◌, ◌≢◌, refl, ◌∙◌, arith, ==_iff, List, [], ◌∷◌}
use substrata_swift.Prelude.{Option, none, some}
use substrata_swift.Prelude.{Option-cases, inl, inr}
use substrata_swift.Conversion.{Floats, JsValue, instance_of}
use substrata_swift.Context.{Context, Value, next, new_property_id, add_getter, add_setter}
use substrata_swift.Callbacks.{Getter, Setter, SwiftContext, export_properties}
use substrata_swift.Instances.{Objects, World, ClassInfo, ClassType, instance_atom}
use substrata_swift.Instances.{define_all, attach, finish}
use substrata_swift.Instances.Attached.{Laws, Attached, Apart, create-Tagged, mark-Tagged}
use substrata_swift.Instances.Attached.{marked-Tagged, define_all-Tagged}

-- No property has the name "__instanceAtom".
module _ {D P : Type 0} where
  abbrev pub Plain : List (List ℕ × Getter D P × Option (Setter D P)) → Type 0
  Plain [] = Unit
  Plain ((name, g, s) ∷ ps) = (name ≢ instance_atom) × Plain ps

new_property_id-classes :
    {F G S C : Type 0} (c c1 : Context F G S C) (k : ℕ)
    → new_property_id c ≡ some (k, c1)
    → c1.classes ≡ c.classes
unfolding new_property_id next
new_property_id-classes c c1 k h = ground arith

-- The names that are defined are those of the properties, and the classes stay as they are.
export_properties-Apart :
    (f : Floats) {P C : Type 0} (made : ℕ)
    (ps : List (List ℕ × Getter f.Double P × Option (Setter f.Double P)))
    (c c' : SwiftContext f.Double P C) (ds : List (List ℕ × ℕ × Option ℕ))
    → export_properties f made ps c ≡ some (ds, c')
    → (Plain ps → Apart ds) × (c'.classes ≡ c.classes)
unfolding export_properties add_getter add_setter
export_properties-Apart f made [] c c' ds h =
    let same : (c ≡ c') × (ds ≡ []) = ground arith in rw (← same.0, same.1) (λ plain. tt, refl)
export_properties-Apart f made ((name, g, none) ∷ ps) c c' ds h =
    elim (Option-cases (new_property_id c)) [
      | inl full ↦ cc (rw full at h)
      | inr ((k, c1), taken) ↦
          elim (Option-cases (export_properties f made ps (add_getter k g c1))) [
            | inl full ↦ cc (rw (taken, full) at h)
            | inr ((ds', c2), rest) ↦
                (let others = export_properties-Apart f made ps (add_getter k g c1) c2 ds' rest in
                  let same : (c2 ≡ c') × (ds ≡ (name, k, none) ∷ ds') =
                    ground (arith, rw (taken, rest) at h) in
                  rw (← same.0, same.1)
                    (
                      λ plain. (plain.0, others.0 plain.1),
                      others.1 ∙ new_property_id-classes c c1 k taken,
                    ))
          ]
    ]
export_properties-Apart f made ((name, g, some s) ∷ ps) c c' ds h =
    elim (Option-cases (new_property_id c)) [
      | inl full ↦ cc (rw full at h)
      | inr ((k, c1), taken) ↦ elim (Option-cases (new_property_id (add_getter k g c1))) [
        | inl full ↦ cc (rw (taken, full) at h)
        | inr ((m, c2), taken') ↦
            elim (Option-cases (export_properties f made ps (add_setter m s c2))) [
              | inl full ↦ cc (rw (taken, taken', full) at h)
              | inr ((ds', c3), rest) ↦
                  (let others = export_properties-Apart f made ps (add_setter m s c2) c3 ds' rest in
                    let same : (c3 ≡ c') × (ds ≡ (name, k, some m) ∷ ds') =
                      ground (arith, rw (taken, taken', rest) at h) in
                    rw (← same.0, same.1)
                      (
                        λ plain. (plain.0, others.0 plain.1),
                        others.1
                            ∙ new_property_id-classes (add_getter k g c1) c2 m taken'
                            ∙ new_property_id-classes c c1 k taken,
                      ))
            ]
      ]
    ]

module _ (o : Objects) (class_of : Value → o.Heap → Option ℕ) (laws : Laws o class_of) (f : Floats)
    {P : Type 0} where
  -- What `finish` keeps.
  pub finish-Attached :
      (types : ℕ → ClassType f.Double P) (made v i : ℕ) (w w' : World o f P) (r : JsValue f.Double)
      → finish o f types made v i w ≡ some (r, w')
      → Plain (w.instances i).properties
      → (r ≡ instance_of v)
        × (w'.instances ≡ w.instances)
        × (w'.infos ≡ w.infos)
        × (w'.program ≡ w.program)
        × ((u j : ℕ) → Attached o class_of f P w u j → Attached o class_of f P w' u j)
        × (w'.next_instance ≡ w.next_instance)
        × (w'.context.classes ≡ w.context.classes)
  unfolding finish
  finish-Attached types made v i w w' r h plain =
      elim (Option-cases (export_properties f made (w.instances i).properties w.context)) [
        | inl full ↦ cc (rw full at h)
        | inr ((ds, c), taken) ↦
            (let named =
                export_properties-Apart f made (w.instances i).properties w.context c ds taken in
              let same : (instance_of v ≡ r)
                  × (record w { context = c; heap = define_all o v ds w.heap } ≡ w') =
                ground (arith, rw taken at h) in
              rw (← same.0, ← same.1)
                (
                  refl,
                  refl,
                  refl,
                  refl,
                  λ u j a. record {
                    class_id = a.class_id;
                    info = a.info;
                    tagged =
                        define_all-Tagged o class_of laws ds v u a.class_id a.info w.heap
                          (λ e. named.0 plain) a.tagged;
                    known = a.known;
                    old = a.old;
                    made = a.made;
                  },
                  refl,
                  named.1,
                ))
      ]

  -- The heap and the addresses after the new object was made and marked.
  abbrev pub marked : ℕ → ClassInfo → ℕ → World o f P → World o f P
  marked this info i w =
      attach o f (o.create_from_ctor this info.class_id w.heap).0 i info
        (record w { heap = (o.create_from_ctor this info.class_id w.heap).1 })

  pub attach-Attached :
      (v i : ℕ) (info : ClassInfo) (h : o.Heap) (w : World o f P)
      → class_of v h ≡ some info.class_id
      → i < w.next_instance
      → Attached o class_of f P (attach o f v i info (record w { heap = h })) v i
  unfolding attach
  attach-Attached v i info h w e l = record {
    class_id = info.class_id;
    info = w.next_info;
    tagged = marked-Tagged o class_of laws v info.class_id w.next_info h e;
    known = ground (arith, ==_iff w.next_info w.next_info);
    old = omega arith;
    made = l;
  }

  -- The objects that were there stay, and are not the new one.
  pub created-Attached :
      (this i u j : ℕ) (info : ClassInfo) (w w1 : World o f P)
      → Attached o class_of f P w u j
      → w1.heap ≡ (o.create_from_ctor this info.class_id w.heap).1
      → w1.infos ≡ w.infos
      → w1.next_info ≡ w.next_info
      → w.next_instance ≤ w1.next_instance
      → Attached o class_of f P
          (attach o f (o.create_from_ctor this info.class_id w.heap).0 i info w1)
          u
          j
        × (u ≢ (o.create_from_ctor this info.class_id w.heap).0)
  unfolding attach
  created-Attached this i u j info w w1 a heap infos next more =
      let (v, h) = o.create_from_ctor this info.class_id w.heap in
      let made =
        create-Tagged o class_of laws this info.class_id u a.class_id a.info w.heap a.tagged in
      (
        record {
          class_id = a.class_id;
          info = a.info;
          tagged = rw heap (
              mark-Tagged o class_of laws v u a.class_id a.info info.class_id w1.next_info h made.1
                made.0);
          known = ground (arith, ==_iff w1.next_info a.info, a.known, a.old, infos, next);
          old = omega (arith, a.old, next);
          made = omega (arith, a.made, more);
        },
        made.1,
      )
