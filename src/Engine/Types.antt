-- ===== src/Engine/Types.antt =====
-- An exported type: its class, methods, static methods and properties are found under the identifiers
-- that are put into the objects of the engine.
use substrata_swift.Prelude.{ℕ, ◌≡◌, refl, arith, Option, some, List, [], ◌∷◌}
use substrata_swift.Prelude.{Option-cases, inl, inr}
use substrata_swift.Conversion.{Floats}
use substrata_swift.Context.{find_function, find_method, find_class, new_method_id, add_method}
use substrata_swift.Context.{new_function_id, add_function, new_class_id, add_class}
use substrata_swift.Context.Exports.{IsValid, Export, export, Found}
use substrata_swift.Context.Exports.Steps.{Exported, export-Exported}
use substrata_swift.Callbacks.{Function, Getter, Setter, SwiftContext, export_properties}
use substrata_swift.Callbacks.Properties.{Defined, export_properties-Defined}
use substrata_swift.Engine.{export_methods, export_statics, register_type}

module _ (f : Floats) (P C : Type 0) where
  abbrev Ctx : Type 0
  Ctx = SwiftContext f.Double P C

  abbrev Entry : Type 0
  Entry = Export (Function f.Double P) (Getter f.Double P) (Setter f.Double P) C

  -- What was found under an identifier still is.
  abbrev Kept : Ctx → Ctx → Type 0
  Kept c c' = (e : Entry) (j : ℕ) → Found c e j → Found c' e j

  abbrev pub Methods : SwiftContext f.Double P C → List (List ℕ) → List (List ℕ × ℕ) → Type 0
  Methods c [] [] = Unit
  Methods c (name ∷ names) ((name', k) ∷ ids) =
      (name ≡ name') × (find_method c k ≡ some name) × Methods c names ids
  Methods c _ _ = ⊥

  abbrev pub Statics :
      SwiftContext f.Double P C → List (List ℕ × Function f.Double P) → List (List ℕ × ℕ) → Type 0
  Statics c [] [] = Unit
  Statics c ((name, fn) ∷ methods) ((name', k) ∷ ids) =
      (name ≡ name') × (find_function c k ≡ some fn) × Statics c methods ids
  Statics c _ _ = ⊥

  Methods-Kept :
      (c c' : Ctx) (names : List (List ℕ)) (ids : List (List ℕ × ℕ))
      → Kept c c'
      → Methods c names ids
      → Methods c' names ids
  Methods-Kept c c' [] [] kept m = tt
  Methods-Kept c c' [] (i ∷ is) kept m = m
  Methods-Kept c c' (n ∷ ns) [] kept m = m
  Methods-Kept c c' (n ∷ ns) ((n', k) ∷ is) kept m =
      (m.0, kept (Export.method n) k m.1, Methods-Kept c c' ns is kept m.2)

  Statics-Kept :
      (c c' : Ctx) (methods : List (List ℕ × Function f.Double P)) (ids : List (List ℕ × ℕ))
      → Kept c c'
      → Statics c methods ids
      → Statics c' methods ids
  Statics-Kept c c' [] [] kept m = tt
  Statics-Kept c c' [] (i ∷ is) kept m = m
  Statics-Kept c c' (n ∷ ns) [] kept m = m
  Statics-Kept c c' ((n, fn) ∷ ns) ((n', k) ∷ is) kept m =
      (m.0, kept (Export.function fn) k m.1, Statics-Kept c c' ns is kept m.2)

  new_method :
      (c c1 : Ctx) (k : ℕ) (name : List ℕ)
      → IsValid c
      → new_method_id c ≡ some (k, c1)
      → Exported c (add_method k name c1) (Export.method name) k
  unfolding export
  new_method c c1 k name v h =
      export-Exported c (add_method k name c1) (Export.method name) k v (rw h)

  new_function :
      (c c1 : Ctx) (k : ℕ) (fn : Function f.Double P)
      → IsValid c
      → new_function_id c ≡ some (k, c1)
      → Exported c (add_function k fn c1) (Export.function fn) k
  unfolding export
  new_function c c1 k fn v h =
      export-Exported c (add_function k fn c1) (Export.function fn) k v (rw h)

  new_class :
      (c c1 : Ctx) (k : ℕ) (info : C)
      → IsValid c
      → new_class_id c ≡ some (k, c1)
      → Exported c (add_class k info c1) (Export.class_info info) k
  unfolding export
  new_class c c1 k info v h =
      export-Exported c (add_class k info c1) (Export.class_info info) k v (rw h)

  export_methods_lem :
      (names : List (List ℕ)) (c c' : Ctx) (ids : List (List ℕ × ℕ))
      → IsValid c
      → export_methods f names c ≡ some (ids, c')
      → IsValid c' × Methods c' names ids × Kept c c'
  unfolding export_methods
  export_methods_lem [] c c' ids v h =
      let same : (c ≡ c') × (ids ≡ []) = ground arith in rw (← same.0, same.1) (v, tt, λ e j x. x)
  export_methods_lem (name ∷ names) c c' ids v h = elim (Option-cases (new_method_id c)) [
    | inl full ↦ cc (rw full at h)
    | inr ((k, c1), taken) ↦ elim (Option-cases (export_methods f names (add_method k name c1))) [
      | inl full ↦ cc (rw (taken, full) at h)
      | inr ((ids', c2), rest) ↦
          (let first = new_method c c1 k name v taken in
            let others = export_methods_lem names (add_method k name c1) c2 ids' first.valid rest in
            let same : (c2 ≡ c') × (ids ≡ (name, k) ∷ ids') =
              ground (arith, rw (taken, rest) at h) in
            rw (← same.0, same.1)
              (
                others.0,
                (refl, others.2 (Export.method name) k first.found, others.1),
                λ e j x. others.2 e j (first.kept e j x),
              ))
    ]
  ]

  export_statics_lem :
      (methods : List (List ℕ × Function f.Double P)) (c c' : Ctx) (ids : List (List ℕ × ℕ))
      → IsValid c
      → export_statics f methods c ≡ some (ids, c')
      → IsValid c' × Statics c' methods ids × Kept c c'
  unfolding export_statics
  export_statics_lem [] c c' ids v h =
      let same : (c ≡ c') × (ids ≡ []) = ground arith in rw (← same.0, same.1) (v, tt, λ e j x. x)
  export_statics_lem ((name, fn) ∷ methods) c c' ids v h = elim (Option-cases (new_function_id c)) [
    | inl full ↦ cc (rw full at h)
    | inr ((k, c1), taken) ↦ elim (Option-cases (export_statics f methods (add_function k fn c1))) [
      | inl full ↦ cc (rw (taken, full) at h)
      | inr ((ids', c2), rest) ↦
          (let first = new_function c c1 k fn v taken in
            let others =
              export_statics_lem methods (add_function k fn c1) c2 ids' first.valid rest in
            let same : (c2 ≡ c') × (ids ≡ (name, k) ∷ ids') =
              ground (arith, rw (taken, rest) at h) in
            rw (← same.0, same.1)
              (
                others.0,
                (refl, others.2 (Export.function fn) k first.found, others.1),
                λ e j x. others.2 e j (first.kept e j x),
              ))
    ]
  ]

  -- When a type was exported into a valid context, its class, its methods, its static methods and its
  -- properties are found under the identifiers that the engine was given, everything exported before
  -- is kept, and the context stays valid.
  pub register_type-Found :
      (made : ℕ) (info : C) (methods : List (List ℕ))
      (statics : List (List ℕ × Function f.Double P))
      (properties : List (List ℕ × Getter f.Double P × Option (Setter f.Double P)))
      (c c' : SwiftContext f.Double P C) (k : ℕ) (ms ss : List (List ℕ × ℕ))
      (ps : List (List ℕ × ℕ × Option ℕ))
      → IsValid c
      → register_type f made info methods statics properties c ≡ some ((k, ms, ss, ps), c')
      → IsValid c'
        × (find_class c' k ≡ some info)
        × Methods c' methods ms
        × Statics c' statics ss
        × Defined f P C c' properties ps
        × ((e : Export (Function f.Double P) (Getter f.Double P) (Setter f.Double P) C) (j : ℕ)
            → Found c e j
            → Found c' e j)
  unfolding register_type
  register_type-Found made info methods statics properties c c' k ms ss ps v h =
      elim (Option-cases (new_class_id c)) [
        | inl full ↦ cc (rw full at h)
        | inr ((k', c1), taken) ↦
            elim (Option-cases (export_methods f methods (add_class k' info c1))) [
              | inl full ↦ cc (rw (taken, full) at h)
              | inr ((ms', c2), second) ↦ elim (Option-cases (export_statics f statics c2)) [
                | inl full ↦ cc (rw (taken, second, full) at h)
                | inr ((ss', c3), third) ↦
                    elim (Option-cases (export_properties f made properties c3)) [
                      | inl full ↦ cc (rw (taken, second, third, full) at h)
                      | inr ((ps', c4), fourth) ↦
                          (let cls = new_class c c1 k' info v taken in
                            let meth =
                              export_methods_lem methods (add_class k' info c1) c2 ms' cls.valid
                                second in
                            let stat = export_statics_lem statics c2 c3 ss' meth.0 third in
                            let prop =
                              export_properties-Defined f P C made properties c3 c4 ps' stat.0
                                fourth in
                            let same : (c4 ≡ c') × (k' ≡ k) × (ms' ≡ ms) × (ss' ≡ ss) × (ps' ≡ ps) =
                              ground (arith, rw (taken, second, third, fourth) at h) in
                            let late : Kept c2 c4 = λ e j x. prop.2 e j (stat.2 e j x) in
                            rw (← same.0, ← same.1, ← same.2, ← same.3, ← same.4)
                              (
                                prop.0,
                                late (Export.class_info info) k'
                                    (meth.2 (Export.class_info info) k' cls.found),
                                Methods-Kept c2 c4 methods ms' late meth.1,
                                Statics-Kept c3 c4 statics ss' prop.2 stat.1,
                                prop.1,
                                λ e j x. late e j (meth.2 e j (cls.kept e j x)),
                              ))
                    ]
              ]
            ]
      ]
