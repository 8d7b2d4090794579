-- ===== src/Engine.antt =====
-- The exports of Sources/Substrata/Engine.swift: `isExported`, `export(name:function:)` and
-- `export(type:className:)`, with `JSFunction.init` of Internals/Conversion.swift and `JSValue.free` of
-- Utilities/Extensions.swift.
-- The C engine is a parameter: its heap and those of its calls that the exports make. Of the result of
-- a call that may throw, only what happens without an exception is used. A dictionary is the list of
-- its entries in the order in which it is gone through. The outer `none` is a trap: `fatalError`, or
-- the overflow of a counter.
pub mod Counting
pub mod Limits
pub mod Types
mod Tests
use substrata_swift.Prelude.{
  ℕ, if◌then◌else◌, Bool, true, false, Option, none, some, ◌>>=◌, List, [], ◌∷◌,
}
use substrata_swift.Conversion.{Floats}
use substrata_swift.Context.{
  Context, Value, new_function_id, new_method_id, new_class_id, add_function,
}
use substrata_swift.Context.{add_method, add_class, free}
use substrata_swift.Callbacks.{Function, Getter, Setter, SwiftContext, export_properties}

-- `JS_NewCFunctionMagic` with the name and the identifier, of which the engine keeps 16 bits, `JS_SetPropertyStr` on an object,
-- `JS_HasProperty` by an atom of the name, `JS_DupValue` and `JS_FreeValue`; then what can be seen of
-- a heap: the value of a property, and of a value its reference count and what is kept of its
-- identifier, where that is not negative.
pub record Quickjs : Type 1 where
  pub Heap : Type 0
  pub new_c_function : List ℕ → ℕ → Heap → Value × Heap
  pub set_property_str : Value → List ℕ → Value → Heap → Heap
  pub has_property : Value → List ℕ → Heap → Bool
  pub dup_value : Value → Heap → Heap
  pub free_value : Value → Heap → Heap
  pub property : Value → List ℕ → Heap → Option Value
  pub ref_count : Value → Heap → ℕ
  pub magic : Value → Heap → Option ℕ

module _ (q : Quickjs) (F G S C : Type 0) where
  pub record Engine : Type 0 where
    pub context : Context F G S C
    pub heap : q.Heap

module _ (q : Quickjs) {F G S C : Type 0} where
  -- `JSValue.free`
  unfoldable pub release : Value → Engine q F G S C → Engine q F G S C
  release v e =
      if e.context.shutting_down
      then e
      else record e { context = free v e.context; heap = q.free_value v e.heap }

  unfoldable pub is_exported : List ℕ → Engine q F G S C → Bool
  is_exported name e =
      if e.context.shutting_down then false else q.has_property e.context.global_ref name e.heap

  -- `JSFunction.init` on a function; reading its name gives back what it takes.
  unfoldable pub hold : Value → Engine q F G S C → Engine q F G S C
  hold v e = record e { heap = q.dup_value v e.heap }

  -- `JSFunction.deinit`
  unfoldable pub drop_function : Value → Engine q F G S C → Engine q F G S C
  unfolding release
  drop_function v e = release v e

  -- `JS_NewCFunctionMagic` and `JS_SetPropertyStr`
  unfoldable pub new_global_function : List ℕ → ℕ → Engine q F G S C → Value × Engine q F G S C
  new_global_function name id e =
      let (v, made) = q.new_c_function name id e.heap in
      (v, record e { heap = q.set_property_str e.context.global_ref name v made })

  -- `export(name:function:)`; `debug` tells whether it is a debug build.
  unfoldable pub export_function :
      Bool → List ℕ → F → Engine q F G S C → Option (Option Value × Engine q F G S C)
  unfolding is_exported new_global_function hold
  export_function debug name f e =
      if is_exported name e
      then (if debug then none else some (none, e))
      else (if e.context.shutting_down then some (none, e) else do
        (id, c) ← new_function_id e.context
        let (v, bound) = new_global_function name id (record e { context = c })
        let e' = release v (hold v bound)
        some (some v, record e' { context = add_function id f e'.context }))

module _ (f : Floats) {P C : Type 0} where
  open f use {Double}

  -- The loop over the methods of a dummy instance.
  unfoldable pub export_methods :
      List (List ℕ) → SwiftContext Double P C → Option (List (List ℕ × ℕ) × SwiftContext Double P C)
  export_methods [] c = some ([], c)
  export_methods (name ∷ names) c = do
    (id, c1) ← new_method_id c
    (defined, c2) ← export_methods names (add_method id name c1)
    some ((name, id) ∷ defined, c2)

  -- The loop over the static methods.
  unfoldable pub export_statics :
      List (List ℕ × Function Double P)
      → SwiftContext Double P C
      → Option (List (List ℕ × ℕ) × SwiftContext Double P C)
  export_statics [] c = some ([], c)
  export_statics ((name, fn) ∷ methods) c = do
    (id, c1) ← new_function_id c
    (defined, c2) ← export_statics methods (add_function id fn c1)
    some ((name, id) ∷ defined, c2)

  -- The closure of `export(type:className:)`: what it does to the context, and the identifiers that it
  -- puts into the objects of the engine, of the constructor, the methods, the static methods and the
  -- properties.
  unfoldable pub register_type :
      ℕ
      → C
      → List (List ℕ)
      → List (List ℕ × Function Double P)
      → List (List ℕ × Getter Double P × Option (Setter Double P))
      → SwiftContext Double P C
      → Option (
          (ℕ × List (List ℕ × ℕ) × List (List ℕ × ℕ) × List (List ℕ × ℕ × Option ℕ))
          × SwiftContext Double P C)
  register_type made info methods statics properties c = do
    (class_id, c1) ← new_class_id c
    (method_ids, c2) ← export_methods methods (add_class class_id info c1)
    (static_ids, c3) ← export_statics statics c2
    (property_ids, c4) ← export_properties f made properties c3
    some ((class_id, method_ids, static_ids, property_ids), c4)

  -- `export(type:className:)`, where `exported` is the answer of `isExported` on the name.
  unfoldable pub export_type :
      Bool
      → Bool
      → ℕ
      → C
      → List (List ℕ)
      → List (List ℕ × Function Double P)
      → List (List ℕ × Getter Double P × Option (Setter Double P))
      → SwiftContext Double P C
      → Option (
          Option (ℕ × List (List ℕ × ℕ) × List (List ℕ × ℕ) × List (List ℕ × ℕ × Option ℕ))
          × SwiftContext Double P C)
  export_type debug exported made info methods statics properties c =
      if exported
      then (if debug then none else some (none, c))
      else (if c.shutting_down then some (none, c) else do
        (ids, c') ← register_type made info methods statics properties c
        some (some ids, c'))
