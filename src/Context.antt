-- ===== src/Context.antt =====
-- The context of Sources/Substrata/Internals/Context.swift: `JSContext`, its counters, its tables of
-- exports, `performThreadSafe` and `shutdown`.
-- The closures and class records that the tables hold are of any types. `none` is a trap of Swift, the
-- overflow of an `Int32` counter. Each method runs under a lock, so it is one step here;
-- Context/Threads.antt is about the order of the steps of several threads. The calls of the C engine
-- that have an effect are a log, the last one first.
pub mod Exports
pub mod Shutdown
pub mod Threads
mod Tests
use substrata_swift.Prelude.{ℕ, ◌+◌, ◌^◌, ltb, if◌then◌else◌, Bool, true, false}
use substrata_swift.Prelude.{Option, none, some, List, [], ◌∷◌, Table, find, put}

-- A value of the engine, by the address of its object.
abbrev pub Value : Type 0
Value = ℕ

-- `JS_FreeValue`, `JS_SetContextOpaque(ref, nil)` and `JS_FreeContext`.
pub data Call : Type 0 where
  free_value : Value → Call
  clear_opaque : Call
  free_context : Call

-- `JSFunctionDefinition`, `JSPropertyGetterDefinition`, `JSPropertySetterDefinition`, `JSClassInfo`
-- and the names of methods.
pub record Context (F G S C : Type 0) : Type 0 where
  pub class_counter : ℕ
  pub function_counter : ℕ
  pub method_counter : ℕ
  pub property_counter : ℕ
  pub classes : Table C
  pub functions : Table F
  pub property_getters : Table G
  pub property_setters : Table S
  pub method_ids : Table (List ℕ)
  pub built_ins : List Value
  pub global_ref : Value
  pub shutting_down : Bool
  pub calls : List Call

-- `counter += 1` on an `Int32`
unfoldable pub next : ℕ → Option ℕ
next n = if ltb (n + 1) (2 ^ 31) then some (n + 1) else none

-- `if table[id] != nil { return }; table[id] = value`
unfoldable pub add_new : {V : Type 0} → Table V → ℕ → V → Table V
add_new t id v = elim (find t id) [ some old ↦ t | none ↦ put t id v ]

module _ {F G S C : Type 0} where
  -- `init`, before the built-ins are there.
  unfoldable pub new_context : Value → Context F G S C
  new_context global = record {
    class_counter = 0;
    function_counter = 0;
    method_counter = 0;
    property_counter = 0;
    classes = [];
    functions = [];
    property_getters = [];
    property_setters = [];
    method_ids = [];
    built_ins = [];
    global_ref = global;
    shutting_down = false;
    calls = [];
  }

  unfoldable pub new_class_id : Context F G S C → Option (ℕ × Context F G S C)
  unfolding next
  new_class_id c = elim (next c.class_counter) [
    | none ↦ none
    | some n ↦ some (c.class_counter, record c { class_counter = n })
  ]

  unfoldable pub new_function_id : Context F G S C → Option (ℕ × Context F G S C)
  unfolding next
  new_function_id c = elim (next c.function_counter) [
    | none ↦ none
    | some n ↦ some (c.function_counter, record c { function_counter = n })
  ]

  unfoldable pub new_method_id : Context F G S C → Option (ℕ × Context F G S C)
  unfolding next
  new_method_id c = elim (next c.method_counter) [
    | none ↦ none
    | some n ↦ some (c.method_counter, record c { method_counter = n })
  ]

  unfoldable pub new_property_id : Context F G S C → Option (ℕ × Context F G S C)
  unfolding next
  new_property_id c = elim (next c.property_counter) [
    | none ↦ none
    | some n ↦ some (c.property_counter, record c { property_counter = n })
  ]

  unfoldable pub add_function : ℕ → F → Context F G S C → Context F G S C
  unfolding add_new
  add_function id f c = record c { functions = add_new c.functions id f }

  unfoldable pub find_function : Context F G S C → ℕ → Option F
  find_function c id = find c.functions id

  unfoldable pub add_getter : ℕ → G → Context F G S C → Context F G S C
  unfolding add_new
  add_getter id g c = record c { property_getters = add_new c.property_getters id g }

  unfoldable pub find_getter : Context F G S C → ℕ → Option G
  find_getter c id = find c.property_getters id

  unfoldable pub add_setter : ℕ → S → Context F G S C → Context F G S C
  unfolding add_new
  add_setter id s c = record c { property_setters = add_new c.property_setters id s }

  unfoldable pub find_setter : Context F G S C → ℕ → Option S
  find_setter c id = find c.property_setters id

  unfoldable pub add_class : ℕ → C → Context F G S C → Context F G S C
  unfolding add_new
  add_class id i c = record c { classes = add_new c.classes id i }

  unfoldable pub find_class : Context F G S C → ℕ → Option C
  find_class c id = find c.classes id

  -- `addExport(methodID:name:)` has no test: a second name replaces the first.
  unfoldable pub add_method : ℕ → List ℕ → Context F G S C → Context F G S C
  add_method id name c = record c { method_ids = put c.method_ids id name }

  unfoldable pub find_method : Context F G S C → ℕ → Option (List ℕ)
  find_method c id = find c.method_ids id

  -- `performThreadSafe`
  unfoldable pub perform : (Context F G S C → Context F G S C) → Context F G S C → Context F G S C
  perform closure c = if c.shutting_down then c else closure c

  -- `JSValue.free`
  unfoldable pub free : Value → Context F G S C → Context F G S C
  unfolding perform
  free v c = perform (λ c'. record c' { calls = free_value v ∷ c'.calls }) c

  -- `Builtins.free`: the functions that it drops free their values when they are gone.
  unfoldable pub free_all : List Value → Context F G S C → Context F G S C
  free_all [] c = c
  free_all (v ∷ vs) c = free_all vs (free v c)

  unfoldable pub free_built_ins : Context F G S C → Context F G S C
  unfolding free_all free
  free_built_ins c = record (free_all c.built_ins c) { built_ins = [] }

  -- `removeAll` of the five tables
  unfoldable pub drop_exports : Context F G S C → Context F G S C
  drop_exports c = record c {
    classes = [];
    functions = [];
    property_getters = [];
    property_setters = [];
    method_ids = [];
  }

  -- One call of the engine, which no lock or flag guards.
  unfoldable pub log : Call → Context F G S C → Context F G S C
  log call c = record c { calls = call ∷ c.calls }

  unfoldable pub shutdown : Context F G S C → Context F G S C
  unfolding free_built_ins log free drop_exports
  shutdown c =
      let marked = record c { shutting_down = true } in
      let freed = free c.global_ref (log clear_opaque (free_built_ins marked)) in
      drop_exports (log free_context freed)
