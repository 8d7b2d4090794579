-- ===== src/Callbacks/Properties.antt =====
-- The exported properties of an instance or of a class are found under the identifiers that were put
-- into the object.
use substrata_swift.Prelude.{ℕ, ◌≡◌, refl, arith, Option, none, some, List, [], ◌∷◌}
use substrata_swift.Prelude.{Option-cases, inl, inr}
use substrata_swift.Conversion.{Floats}
use substrata_swift.Context.{find_getter, find_setter, new_property_id, add_getter, add_setter}
use substrata_swift.Context.Exports.{IsValid, Export, export, Found}
use substrata_swift.Context.Exports.Steps.{Exported, export-Exported}
use substrata_swift.Callbacks.{Function, Getter, Setter, SwiftContext, export_properties}

module _ (f : Floats) (P C : Type 0) where
  abbrev Ctx : Type 0
  Ctx = SwiftContext f.Double P C

  abbrev Exports : Type 0
  Exports = Export (Function f.Double P) (Getter f.Double P) (Setter f.Double P) C

  -- Each name stands where it was, its getter is found, and so is its setter, where it has one.
  abbrev pub Defined :
      SwiftContext f.Double P C
      → List (List ℕ × Getter f.Double P × Option (Setter f.Double P))
      → List (List ℕ × ℕ × Option ℕ)
      → Type 0
  Defined c [] [] = Unit
  Defined c ((name, g, none) ∷ ps) ((name', k, none) ∷ ds) =
      (name ≡ name') × (find_getter c k ≡ some g) × Defined c ps ds
  Defined c ((name, g, some s) ∷ ps) ((name', k, some j) ∷ ds) =
      (name ≡ name') × (find_getter c k ≡ some g) × (find_setter c j ≡ some s) × Defined c ps ds
  Defined c _ _ = ⊥

  new_getter :
      (c c1 : Ctx) (k : ℕ) (g : Getter f.Double P)
      → IsValid c
      → new_property_id c ≡ some (k, c1)
      → Exported c (add_getter k g c1) (Export.getter g) k
  unfolding export
  new_getter c c1 k g v h = export-Exported c (add_getter k g c1) (Export.getter g) k v (rw h)

  new_setter :
      (c c1 : Ctx) (k : ℕ) (s : Setter f.Double P)
      → IsValid c
      → new_property_id c ≡ some (k, c1)
      → Exported c (add_setter k s c1) (Export.setter s) k
  unfolding export
  new_setter c c1 k s v h = export-Exported c (add_setter k s c1) (Export.setter s) k v (rw h)

  module _ (made : ℕ) where
    -- For a valid context, when no counter overflows, every exported property is found under the
    -- identifiers that are put into the object, every export that was there before is kept, and the
    -- context stays valid.
    pub export_properties-Defined :
        (ps : List (List ℕ × Getter f.Double P × Option (Setter f.Double P)))
        (c c' : SwiftContext f.Double P C) (ds : List (List ℕ × ℕ × Option ℕ))
        → IsValid c
        → export_properties f made ps c ≡ some (ds, c')
        → IsValid c'
          × Defined c' ps ds
          × ((e : Export (Function f.Double P) (Getter f.Double P) (Setter f.Double P) C) (j : ℕ)
              → Found c e j
              → Found c' e j)
    unfolding export_properties
    export_properties-Defined [] c c' ds v h =
        let same : (c ≡ c') × (ds ≡ []) = ground arith in rw (← same.0, same.1) (v, tt, λ e j x. x)
    export_properties-Defined ((name, g, none) ∷ ps) c c' ds v h =
        elim (Option-cases (new_property_id c)) [
          | inl full ↦ cc (rw full at h)
          | inr ((k, c1), taken) ↦
              elim (Option-cases (export_properties f made ps (add_getter k g c1))) [
                | inl full ↦ cc (rw (taken, full) at h)
                | inr ((ds', c2), rest) ↦
                    (let first = new_getter c c1 k g v taken in
                      let others =
                        export_properties-Defined ps (add_getter k g c1) c2 ds' first.valid rest in
                      let same : (c2 ≡ c') × (ds ≡ (name, k, none) ∷ ds') =
                        ground (arith, rw (taken, rest) at h) in
                      rw (← same.0, same.1)
                        (
                          others.0,
                          (refl, others.2 (Export.getter g) k first.found, others.1),
                          λ e j x. others.2 e j (first.kept e j x),
                        ))
              ]
        ]
    export_properties-Defined ((name, g, some s) ∷ ps) c c' ds v h =
        elim (Option-cases (new_property_id c)) [
          | inl full ↦ cc (rw full at h)
          | inr ((k, c1), taken) ↦ elim (Option-cases (new_property_id (add_getter k g c1))) [
            | inl full ↦ cc (rw (taken, full) at h)
            | inr ((m, c2), taken') ↦
                elim (Option-cases (export_properties f made ps (add_setter m s c2))) [
                  | inl full ↦ cc (rw (taken, taken', full) at h)
                  | inr ((ds', c3), rest) ↦
                      (let first = new_getter c c1 k g v taken in
                        let second = new_setter (add_getter k g c1) c2 m s first.valid taken' in
                        let others =
                          export_properties-Defined ps (add_setter m s c2) c3 ds' second.valid
                            rest in
                        let same : (c3 ≡ c') × (ds ≡ (name, k, some m) ∷ ds') =
                          ground (arith, rw (taken, taken', rest) at h) in
                        rw (← same.0, same.1)
                          (
                            others.0,
                            (
                              refl,
                              others.2 (Export.getter g) k
                                  (second.kept (Export.getter g) k first.found),
                              others.2 (Export.setter s) m second.found,
                              others.1,
                            ),
                            λ e j x. others.2 e j (second.kept e j (first.kept e j x)),
                          ))
                ]
          ]
        ]
