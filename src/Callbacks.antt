-- ===== src/Callbacks.antt =====
-- Calls from JavaScript into Swift: Sources/Substrata/Internals/Callbacks.swift, with
-- `returnJSValueRef` and `jsArgsToTypes` of Internals/Conversion.swift and `throwError` of
-- Internals/Context.swift.
-- The engine keeps an identifier in an `int16_t`: `magic_of` gives back what a callback is called with.
-- A closure of the program is a function of its arguments and of the state of the program, of any type,
-- which it changes. That it calls the engine in turn is not modelled.
-- The engine hands over the context as `none` once `shutdown` has cleared its opaque pointer. A call
-- of `JS_Throw` is the exception that it leaves. The outer `none` is a trap of Swift.
pub mod Dispatch
pub mod Properties
mod Tests
use substrata_swift.Prelude.{
  ℕ, ◌%◌, ◌^◌, ltb, ◌==◌, if◌then◌else◌, Bool, true, false, Option, none, some, ◌>>=◌,
}
use substrata_swift.Prelude.{List, [], ◌∷◌}
use substrata_swift.Conversion.{
  Floats, JsError, JsValue, Native, undefined, exception, null, ns_null,
}
use substrata_swift.Conversion.{field_value, error_name, string, to_native, to_js}
use substrata_swift.Context.{Context, find_function, find_getter, find_setter, find_method}
use substrata_swift.Context.{new_property_id, add_getter, add_setter}
use substrata_swift.Str.{memcmp_equal}

-- What a closure does: it returns a value or `nil`, or throws an error with a description.
pub data Outcome (D : Type 0) : Type 0 where
  returned : Option (Native D) → Outcome D
  thrown : List ℕ → Outcome D

-- `JSFunctionDefinition`, `JSPropertyGetterDefinition` and `JSPropertySetterDefinition`; what a setter
-- returns is not used.
abbrev pub Function : Type 0 → Type 0 → Type 0
Function D P = List (Native D) → P → Outcome D × P

abbrev pub Getter : Type 0 → Type 0 → Type 0
Getter D P = P → Outcome D × P

abbrev pub Setter : Type 0 → Type 0 → Type 0
Setter D P = Option (Native D) → P → Outcome D × P

abbrev pub SwiftContext : Type 0 → Type 0 → Type 0 → Type 0
SwiftContext D P C = Context (Function D P) (Getter D P) (Setter D P) C

-- "Native Code Exception"
abbrev pub native_name : List ℕ
native_name =
    78 ∷ 97 ∷ 116 ∷ 105 ∷ 118 ∷ 101 ∷ 32 ∷ 67 ∷ 111 ∷ 100 ∷ 101 ∷ 32 ∷ 69 ∷ 120 ∷ 99 ∷ 101 ∷ 112
    ∷ 116 ∷ 105 ∷ 111 ∷ 110 ∷ []

-- `JSError.from`
unfoldable pub error_from : List ℕ → JsError
error_from description = record {
  name = some native_name;
  message = some description;
  cause = none;
  stack = none;
}

-- `exportedMethods[methodName]`
unfoldable pub method_named : {V : Type 0} → List (List ℕ × V) → List ℕ → Option V
method_named [] name = none
method_named ((other, fn) ∷ methods) name =
    if memcmp_equal other name then some fn else method_named methods name

-- `p->u.cfunc.magic = magic` of the engine: what the callback of a function is called with, or `none`
-- for a negative number, under which nothing is exported.
unfoldable pub magic_of : ℕ → Option ℕ
magic_of id = if ltb (id % 2 ^ 16) (2 ^ 15) then some (id % 2 ^ 16) else none

module _ (f : Floats) (made : ℕ) where
  open f use {Double}

  -- `JSError.toJSValue` of an error with a name and a message.
  unfoldable pub throw_error : List ℕ → JsValue Double
  unfolding error_from field_value
  throw_error description =
      let e = error_from description in
      exception (field_value (string error_name) e.name) (field_value (string []) e.message)
        (field_value undefined e.cause) (field_value undefined e.stack)

  -- `returnJSValueRef` for functions and getters: `nil`, and a value that is not convertible, are
  -- `undefined`.
  unfoldable pub return_value : Outcome Double → Option (JsValue Double)
  unfolding throw_error
  return_value (returned none) = some undefined
  return_value (returned (some n)) =
      to_js f made n >>= λ v. some (elim v [ none ↦ undefined | some w ↦ w ])
  return_value (thrown description) = some (throw_error description)

  -- `returnJSValueRef` for setters.
  unfoldable pub return_setter : Outcome Double → Option (JsValue Double)
  unfolding throw_error
  return_setter (returned n) = some undefined
  return_setter (thrown description) = some (throw_error description)

  -- The arguments that `JSFunction.call` prepares, where each is of a type that is
  -- `JSInternalConvertible`: one that gives `nil` is `null`.
  unfoldable pub prepare_args : List (Native Double) → Option (List (JsValue Double))
  prepare_args [] = some []
  prepare_args (n ∷ ns) = to_js f made n >>= λ v.
      prepare_args ns >>= λ vs. some (elim v [ none ↦ null | some w ↦ w ] ∷ vs)

  -- The loop of `jsArgsToTypes`.
  unfoldable pub args_loop : List (JsValue Double) → Option (List (Native Double))
  args_loop [] = some []
  args_loop (v ∷ argv) = to_native f v >>= λ n.
      args_loop argv >>= λ ns. some (elim n [ none ↦ ns_null | some m ↦ m ] ∷ ns)

  -- `argv` is `none` for a null pointer, and otherwise holds the `argc` arguments.
  unfoldable pub js_args_to_types : Option (List (JsValue Double)) → Option (List (Native Double))
  unfolding args_loop
  js_args_to_types none = some []
  js_args_to_types (some argv) = args_loop argv

  module _ {P : Type 0} where
    -- The value beside the state that the closure leaves.
    unfoldable pub return_function : Outcome Double × P → Option (JsValue Double × P)
    unfolding return_value
    return_function (o, p) = return_value o >>= λ v. some (v, p)

    unfoldable pub return_set : Outcome Double × P → Option (JsValue Double × P)
    unfolding return_setter
    return_set (o, p) = return_setter o >>= λ v. some (v, p)

  module _ {P C : Type 0} where
    unfoldable pub typed_call :
        Option (SwiftContext Double P C)
        → ℕ
        → Option (List (JsValue Double))
        → P
        → Option (JsValue Double × P)
    unfolding js_args_to_types return_function
    typed_call none magic argv p = some (undefined, p)
    typed_call (some c) magic argv p = js_args_to_types argv >>= λ args.
        elim (find_function c magic) [
          | none ↦ some (undefined, p)
          | some fn ↦ return_function (fn args p)
        ]

    unfoldable pub typed_getter :
        Option (SwiftContext Double P C) → ℕ → P → Option (JsValue Double × P)
    unfolding return_function
    typed_getter none magic p = some (undefined, p)
    typed_getter (some c) magic p = elim (find_getter c magic) [
      | none ↦ some (undefined, p)
      | some fn ↦ return_function (fn p)
    ]

    unfoldable pub typed_setter :
        Option (SwiftContext Double P C) → ℕ → JsValue Double → P → Option (JsValue Double × P)
    unfolding return_set
    typed_setter none magic arg p = some (undefined, p)
    typed_setter (some c) magic arg p = to_native f arg >>= λ n. elim (find_setter c magic) [
      | none ↦ some (undefined, p)
      | some fn ↦ return_set (fn n p)
    ]

    -- `opaque` is what `JS_GetOpaque` finds for `this`: the methods of its instance, or the inner `none`
    -- for a null pointer or an instance that is gone; the outer one is the trap of `JSClassID` on a
    -- negative number.
    unfoldable pub typed_instance_method :
        Option (SwiftContext Double P C)
        → Option (Option (List (List ℕ × Function Double P)))
        → ℕ
        → Option (List (JsValue Double))
        → P
        → Option (JsValue Double × P)
    unfolding js_args_to_types return_function method_named
    typed_instance_method none opaque magic argv p = some (undefined, p)
    typed_instance_method (some c) opaque magic argv p = elim (find_method c magic) [
      | none ↦ some (undefined, p)
      | some name ↦ opaque >>= λ found. elim found [
        | none ↦ some (undefined, p)
        | some methods ↦ elim (method_named methods name) [
          | none ↦ some (undefined, p)
          | some fn ↦ js_args_to_types argv >>= λ args. return_function (fn args p)
        ]
      ]
    ]

    -- The loop over `exportedProperties` in `typedConstruct` and in `JSEngine.export(type:className:)`:
    -- for each property its name, and the identifiers of its getter and of its setter, if it has one.
    unfoldable pub export_properties :
        List (List ℕ × Getter Double P × Option (Setter Double P))
        → SwiftContext Double P C
        → Option (List (List ℕ × ℕ × Option ℕ) × SwiftContext Double P C)
    export_properties [] c = some ([], c)
    export_properties ((name, getter, none) ∷ properties) c = do
      (getter_id, c1) ← new_property_id c
      (defined, c2) ← export_properties properties (add_getter getter_id getter c1)
      some ((name, getter_id, none) ∷ defined, c2)
    export_properties ((name, getter, some setter) ∷ properties) c = do
      (getter_id, c1) ← new_property_id c
      (setter_id, c2) ← new_property_id (add_getter getter_id getter c1)
      (defined, c3) ← export_properties properties (add_setter setter_id setter c2)
      some ((name, getter_id, some setter_id) ∷ defined, c3)
