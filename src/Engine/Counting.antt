-- ===== src/Engine/Counting.antt =====
-- An exported function in JavaScript: its name, the closure behind it, and its reference count.
use substrata_swift.Prelude.{ℕ, ◌+◌, ◌<◌, ◌^◌, ◌≡◌, ◌∙◌, arith, Bool, true, false}
use substrata_swift.Prelude.{some, List, ◌∷◌}
use substrata_swift.Context.{
  Context, Value, Call, next, find_function, new_function_id, add_function, free,
}
use substrata_swift.Context.Exports.{IsValid, Export, export}
use substrata_swift.Context.Exports.Steps.{export-Exported}
use substrata_swift.Callbacks.{magic_of}
use substrata_swift.Callbacks.Dispatch.{magic_of-small}
use substrata_swift.Engine.{Quickjs, Engine, release, drop_function}
use substrata_swift.Engine.{export_function}

-- What the exports rely on: a new function has one reference, that of the caller, and 16 bits of its
-- identifier; `JS_SetPropertyStr`
-- takes over the reference of the value that it stores; `JS_DupValue` and `JS_FreeValue` count up and
-- down, and touch nothing else as long as a reference is left.
pub record Counts (q : Quickjs) : Type 0 where
  pub new_counted :
      (name : List ℕ) (id : ℕ) (h : q.Heap)
      → (q.ref_count (q.new_c_function name id h).0 (q.new_c_function name id h).1 ≡ 1)
        × (q.magic (q.new_c_function name id h).0 (q.new_c_function name id h).1 ≡ magic_of id)
  pub new_kept :
      (name : List ℕ) (id : ℕ) (o : Value) (other : List ℕ) (h : q.Heap)
      → q.has_property o other (q.new_c_function name id h).1 ≡ q.has_property o other h
  pub set_stored :
      (o v : Value) (name : List ℕ) (h : q.Heap)
      → q.has_property o name h ≡ false
      → (q.property o name (q.set_property_str o name v h) ≡ some v)
        × (q.ref_count v (q.set_property_str o name v h) ≡ q.ref_count v h)
        × (q.magic v (q.set_property_str o name v h) ≡ q.magic v h)
  pub dup_counted : (v : Value) (h : q.Heap) → q.ref_count v (q.dup_value v h) ≡ q.ref_count v h + 1
  pub dup_kept :
      (v o : Value) (name : List ℕ) (h : q.Heap)
      → (q.property o name (q.dup_value v h) ≡ q.property o name h)
        × (q.magic v (q.dup_value v h) ≡ q.magic v h)
  pub free_counted :
      (v : Value) (n : ℕ) (h : q.Heap)
      → q.ref_count v h ≡ n + 1
      → q.ref_count v (q.free_value v h) ≡ n
  pub free_kept :
      (v o : Value) (n : ℕ) (name : List ℕ) (h : q.Heap)
      → q.ref_count v h ≡ n + 2
      → (q.property o name (q.free_value v h) ≡ q.property o name h)
        × (q.magic v (q.free_value v h) ≡ q.magic v h)
  pub found :
      (o v : Value) (name : List ℕ) (h : q.Heap)
      → q.property o name h ≡ some v
      → q.has_property o name h ≡ true

-- An object of the engine that JavaScript finds under the name, with the identifier of the closure.
pub record Callable (q : Quickjs) {F G S C : Type 0} (e : Engine q F G S C) (name : List ℕ)
    (v : Value) (f : F) : Type 0 where
  pub bound : q.property e.context.global_ref name e.heap ≡ some v
  pub id : ℕ
  pub tagged : q.magic v e.heap ≡ some id
  pub reached : find_function e.context id ≡ some f
  pub counted : q.ref_count v e.heap ≡ 1
  pub running : e.context.shutting_down ≡ false

module _ (q : Quickjs) where
  -- The heap after the calls of `export(name:function:)`.
  unfoldable made_heap : List ℕ → ℕ → Value → q.Heap → Value × q.Heap
  made_heap name id o h =
      let (v, made) = q.new_c_function name id h in
      (v, q.free_value v (q.dup_value v (q.set_property_str o name v made)))

  made_heap_lem :
      (k : Counts q) (name : List ℕ) (id : ℕ) (o : Value) (h : q.Heap)
      → q.has_property o name h ≡ false
      → (q.property o name (made_heap name id o h).1 ≡ some (made_heap name id o h).0)
        × (q.magic (made_heap name id o h).0 (made_heap name id o h).1 ≡ magic_of id)
        × (q.ref_count (made_heap name id o h).0 (made_heap name id o h).1 ≡ 1)
  unfolding made_heap
  made_heap_lem k name id o h absent =
      let (v, h1) = q.new_c_function name id h in
      let h2 = q.set_property_str o name v h1 in
      let h3 = q.dup_value v h2 in
      let made = k.new_counted name id h in
      let stored = k.set_stored o v name h1 (k.new_kept name id o name h ∙ absent) in
      let two : q.ref_count v h3 ≡ 2 = omega (arith, k.dup_counted v h2, stored.1, made.0) in
      let kept = k.free_kept v o 0 name h3 two in
      let twice = k.dup_kept v o name h2 in
      (kept.0 ∙ twice.0 ∙ stored.0, kept.1 ∙ twice.1 ∙ stored.2 ∙ made.1, k.free_counted v 1 h3 two)

  module _ {F G S C : Type 0} where
    -- The engine after an export.
    abbrev made_engine : List ℕ → F → ℕ → Engine q F G S C → Engine q F G S C
    made_engine name f id e = record {
      context = add_function id f (record e.context {
        function_counter = e.context.function_counter + 1;
        calls = Call.free_value (made_heap name id e.context.global_ref e.heap).0 ∷ e.context.calls;
      });
      heap = (made_heap name id e.context.global_ref e.heap).1;
    }

    export_function-made :
        (debug : Bool) (name : List ℕ) (f : F) (e e' : Engine q F G S C) (v : Value)
        → export_function q debug name f e ≡ some (some v, e')
        → (q.has_property e.context.global_ref name e.heap ≡ false)
          × (e.context.shutting_down ≡ false)
          × (next e.context.function_counter ≡ some (e.context.function_counter + 1))
          × ((made_heap name e.context.function_counter e.context.global_ref e.heap).0 ≡ v)
          × (made_engine name f e.context.function_counter e ≡ e')
    unfolding export_function new_function_id release free made_heap next
    export_function-made debug name f e e' v h = ground arith

    export-function :
        (c : Context F G S C) (f : F)
        → next c.function_counter ≡ some (c.function_counter + 1)
        → export (Export.function f) c
          ≡ some (
            c.function_counter,
            add_function c.function_counter f
                (record c { function_counter = c.function_counter + 1 }),
          )
    unfolding export new_function_id
    export-function c f taken = ground (arith, taken)

    dropped :
        (v : Value) (e : Engine q F G S C)
        → Counts q
        → e.context.shutting_down ≡ false
        → q.ref_count v e.heap ≡ 1
        → q.ref_count v (drop_function q v e).heap ≡ 0
    unfolding drop_function
    dropped v e k up counted = ground (arith, up, k.free_counted v 0 e.heap counted)

    -- After a function was exported under a name, from a valid context that has given fewer than 2^15
    -- identifiers to functions, JavaScript finds under the name a function that leads to the closure. Its reference count is 1, though the global object and the
    -- returned `JSFunction` both refer to it: once the latter is dropped, the count is 0.
    pub export_function-Callable :
        (debug : Bool) (name : List ℕ) (f : F) (e e' : Engine q F G S C) (v : Value)
        → Counts q
        → IsValid e.context
        → e.context.function_counter < 2 ^ 15
        → export_function q debug name f e ≡ some (some v, e')
        → Callable q e' name v f
          × IsValid e'.context
          × (q.ref_count v (drop_function q v e').heap ≡ 0)
    unfolding add_function find_function
    export_function-Callable debug name f e e' v k valid few h =
        let (absent, up, taken, same_v, same) = export_function-made debug name f e e' v h in
        let id = e.context.function_counter in
        let (bound, tagged, counted) = made_heap_lem k name id e.context.global_ref e.heap absent in
        let done =
          export-Exported e.context
            (add_function id f (record e.context { function_counter = id + 1 })) (Export.function f)
            id valid (export-function e.context f taken) in
        let v' = (made_heap name id e.context.global_ref e.heap).0 in
        rw (← same, ← same_v)
          (
            record {
              bound = bound;
              id = id;
              tagged = tagged ∙ magic_of-small id few;
              reached = done.found;
              counted = counted;
              running = up;
            },
            record {
              classes_below = done.valid.classes_below;
              functions_below = done.valid.functions_below;
              getters_below = done.valid.getters_below;
              setters_below = done.valid.setters_below;
              methods_below = done.valid.methods_below;
            },
            dropped v' (made_engine name f id e) k up counted,
          )
