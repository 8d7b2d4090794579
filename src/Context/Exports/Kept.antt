-- ===== src/Context/Exports/Kept.antt =====
-- Exports that were made are found until the context is shut down.
use substrata_swift.Prelude.{ℕ, ◌≡◌, arith, some, List, [], ◌∷◌, Option-cases, inl, inr}
use substrata_swift.Context.{Context, Value, new_context}
use substrata_swift.Context.Exports.{IsValid, Export, export, export_all, Found}
use substrata_swift.Context.Exports.Steps.{export-Exported}

module _ {F G S C : Type 0} where
  pub new_context-IsValid :
      (global : Value) → IsValid (new_context {F = F} {G = G} {S = S} {C = C} global)
  unfolding new_context
  new_context-IsValid global = record {
    classes_below = tt;
    functions_below = tt;
    getters_below = tt;
    setters_below = tt;
    methods_below = tt;
  }

  pub export_all_lem :
      (es : List (Export F G S C)) (c c' : Context F G S C)
      → IsValid c
      → export_all es c ≡ some c'
      → IsValid c' × ((e : Export F G S C) (j : ℕ) → Found c e j → Found c' e j)
  unfolding export_all
  export_all_lem [] c c' v h = let same : c ≡ c' = ground arith in rw (← same) (v, λ e j f. f)
  export_all_lem (e ∷ es) c c' v h = elim (Option-cases (export e c)) [
    | inl failed ↦ cc (rw failed at h)
    | inr ((id, c1), made) ↦
        (let first = export-Exported c c1 e id v made in
          let rest = export_all_lem es c1 c' first.valid (rw made at h) in
          (rest.0, λ e' j f. rest.1 e' j (first.kept e' j f)))
  ]

  -- In a valid context, an export that succeeds is found under the identifier that it was given, also
  -- after any further exports, and the context stays valid.
  pub export-Found :
      (c c1 c2 : Context F G S C) (e : Export F G S C) (id : ℕ) (es : List (Export F G S C))
      → IsValid c
      → export e c ≡ some (id, c1)
      → export_all es c1 ≡ some c2
      → IsValid c2 × Found c2 e id
  export-Found c c1 c2 e id es v made more =
      let first = export-Exported c c1 e id v made in
      let rest = export_all_lem es c1 c2 first.valid more in (rest.0, rest.1 e id first.found)
