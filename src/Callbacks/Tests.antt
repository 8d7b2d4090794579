-- ===== src/Callbacks/Tests.antt =====
-- The theorems on callbacks at concrete exports.
use substrata_swift.Prelude.{ℕ, ◌+◌, ◌≡◌, refl, Option, none, some, List, [], ◌∷◌}
use substrata_swift.Conversion.Tests.{halves, Halves}
use substrata_swift.Context.{new_context}
use substrata_swift.Context.Exports.{IsValid, Export, Found}
use substrata_swift.Context.Exports.Kept.{new_context-IsValid}
use substrata_swift.Callbacks.{Function, Getter, Setter, SwiftContext, returned, thrown}
use substrata_swift.Callbacks.{export_properties}
use substrata_swift.Callbacks.Properties.{Defined, export_properties-Defined}
use substrata_swift.Context.{new_property_id}
use substrata_swift.Context.{add_getter}
use substrata_swift.Context.{add_setter}

abbrev Small : Type 0
Small = SwiftContext Halves ℕ ℕ

-- Returns its first argument, and counts its runs.
abbrev first_of : Function Halves ℕ
first_of [] runs = (returned none, runs + 1)
first_of (n ∷ ns) runs = (returned (some n), runs + 1)

abbrev start : Small
start = new_context 7

abbrev exported : Small
exported = record start { function_counter = 1; functions = (0, first_of) ∷ [] }

abbrev exported_more : Small
exported_more = record exported { method_counter = 1; method_ids = (0, 97 ∷ []) ∷ [] }

abbrev Entry : Type 0
Entry = Export (Function Halves ℕ) (Getter Halves ℕ) (Setter Halves ℕ) ℕ

abbrev later : List Entry
later = Export.method (97 ∷ []) ∷ []

abbrev properties : List (List ℕ × Getter Halves ℕ × Option (Setter Halves ℕ))
properties =
    (97 ∷ [], λ r. (returned none, r), none)
    ∷ (98 ∷ [], λ r. (returned none, r), some (λ n r. (thrown [], r)))
    ∷ []

abbrev with_properties : Small
with_properties = record start {
  property_counter = 3;
  property_getters = (0, λ r. (returned none, r)) ∷ (1, λ r. (returned none, r)) ∷ [];
  property_setters = (2, λ n r. (thrown [], r)) ∷ [];
}

abbrev definitions : List (List ℕ × ℕ × Option ℕ)
definitions = (97 ∷ [], 0, none) ∷ (98 ∷ [], 1, some 2) ∷ []

properties_done : export_properties halves 0 properties start ≡ some (definitions, with_properties)
unfolding export_properties new_context new_property_id add_getter add_setter
properties_done = refl

export_properties-Defined_example :
    IsValid with_properties
    × Defined halves ℕ ℕ with_properties properties definitions
    × ((e : Entry) (j : ℕ) → Found start e j → Found with_properties e j)
export_properties-Defined_example =
    export_properties-Defined halves ℕ ℕ 0 properties start with_properties definitions
      (new_context-IsValid 7) properties_done
