-- ===== src/Context/Exports.antt =====
-- Exports of a context: every identifier in use is below its counter, so that a new one is fresh, and
-- an export stays under the identifier that it was given.
pub mod Steps
pub mod Kept
use substrata_swift.Prelude.{
  ℕ, ◌+◌, ◌<◌, ◌≡◌, refl, sym, ap, ◌∙◌, arith, ◌==◌, ==_iff, if◌then◌else◌,
}
use substrata_swift.Prelude.{
  Option, none, some, ◌>>=◌, List, [], ◌∷◌, Table, find, put, Below, find-put,
}
use substrata_swift.Prelude.{find-Below, Below-suc, put-Below, Option-cases, inl, inr}
use substrata_swift.Context.{Context, next, add_new, new_class_id, new_function_id, new_method_id}
use substrata_swift.Context.{new_property_id, add_function, find_function, add_getter, find_getter}
use substrata_swift.Context.{
  add_setter, find_setter, add_class, find_class, add_method, find_method,
}

-- Getters and setters take their identifiers from one counter.
pub record IsValid {F G S C : Type 0} (c : Context F G S C) : Type 0 where
  pub classes_below : Below c.class_counter c.classes
  pub functions_below : Below c.function_counter c.functions
  pub getters_below : Below c.property_counter c.property_getters
  pub setters_below : Below c.property_counter c.property_setters
  pub methods_below : Below c.method_counter c.method_ids

-- What the engine exports, each by a new identifier and the entry under it.
pub data Export (F G S C : Type 0) : Type 0 where
  function : F → Export F G S C
  getter : G → Export F G S C
  setter : S → Export F G S C
  class_info : C → Export F G S C
  method : List ℕ → Export F G S C

module _ {F G S C : Type 0} where
  unfoldable pub export : Export F G S C → Context F G S C → Option (ℕ × Context F G S C)
  unfolding new_function_id new_property_id new_class_id new_method_id
  export (function f) c = do (id, c') ← new_function_id c; some (id, add_function id f c')
  export (getter g) c = do (id, c') ← new_property_id c; some (id, add_getter id g c')
  export (setter s) c = do (id, c') ← new_property_id c; some (id, add_setter id s c')
  export (class_info i) c = do (id, c') ← new_class_id c; some (id, add_class id i c')
  export (method name) c = do (id, c') ← new_method_id c; some (id, add_method id name c')

  unfoldable pub export_all : List (Export F G S C) → Context F G S C → Option (Context F G S C)
  export_all [] c = some c
  export_all (e ∷ es) c = do (id, c') ← export e c; export_all es c'

  -- `findExport` under the identifier gives the export.
  abbrev pub Found : Context F G S C → Export F G S C → ℕ → Type 0
  Found c (function f) id = find_function c id ≡ some f
  Found c (getter g) id = find_getter c id ≡ some g
  Found c (setter s) id = find_setter c id ≡ some s
  Found c (class_info i) id = find_class c id ≡ some i
  Found c (method name) id = find_method c id ≡ some name
