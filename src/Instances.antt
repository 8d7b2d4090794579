-- ===== src/Instances.antt =====
-- Exported classes and their instances: `JSExport` of Sources/Substrata/Types.swift, `JSClassInfo` and
-- `JSClassInstanceInfo` of Internals/InternalTypes.swift, `typedConstruct` and the instance that
-- `typedInstanceMethod` finds, of Internals/Callbacks.swift, and `export(instance:className:as:)` of
-- Engine.swift.
-- The classes of the program are a parameter: what `init` and `construct` of each do. An instance is an
-- address in a store of members, a `JSClassInstanceInfo` the address that the engine keeps for an
-- object. The C engine is a parameter, its heap with those of its calls that are made here. Class
-- identifiers are below 2^31. The outer `none` is a trap of Swift.
pub mod Attached
pub mod Construct
pub mod Made
pub mod Runs
pub mod Export
pub mod Statics
mod Tests
use substrata_swift.Prelude.{ℕ, ◌+◌, ◌==◌, if◌then◌else◌, Bool, true, List, [], ◌∷◌}
use substrata_swift.Prelude.{Option, none, some, ◌>>=◌, set_at, Table}
use substrata_swift.Conversion.{Floats, JsValue, Native, undefined, instance_of}
use substrata_swift.Context.{Value, find_class}
use substrata_swift.Callbacks.{Function, Getter, Setter, SwiftContext, js_args_to_types}
use substrata_swift.Callbacks.{throw_error, export_properties, typed_instance_method}

-- "__instanceAtom"
abbrev pub instance_atom : List ℕ
instance_atom = 95 ∷ 95 ∷ 105 ∷ 110 ∷ 115 ∷ 116 ∷ 97 ∷ 110 ∷ 99 ∷ 101 ∷ 65 ∷ 116 ∷ 111 ∷ 109 ∷ []

-- `_exportedMethods` and `_exportedProperties` of an instance.
pub record Members (D P : Type 0) : Type 0 where
  pub methods : List (List ℕ × Function D P)
  pub properties : List (List ℕ × Getter D P × Option (Setter D P))

-- A subclass of `JSExport`: what `init` exports, and what `construct` exports in addition, with the
-- description of the error that it throws, if it throws one.
pub record ClassType (D P : Type 0) : Type 0 where
  pub init : P → Members D P × P
  pub construct : List (Native D) → Members D P → P → (Members D P × Option (List ℕ)) × P

-- `JSClassInfo`: the type by its number among the classes, and the instance that waits.
pub record ClassInfo : Type 0 where
  pub type_id : ℕ
  pub class_id : ℕ
  pub waiting_to_attach : Option ℕ

-- `js_create_from_ctor`, `JS_SetOpaque`, `JS_GetOpaque`, `JS_SetProperty` and `JS_GetProperty` with
-- `JS_ToInt32`, which is `none` for a negative number, `JS_DefineProperty` on functions for the getter and the setter with their
-- identifiers, and `JS_FreeValue`.
pub record Objects : Type 1 where
  pub Heap : Type 0
  pub create_from_ctor : Value → ℕ → Heap → Value × Heap
  pub set_opaque : Value → ℕ → Heap → Heap
  pub get_opaque : Value → ℕ → Heap → Option ℕ
  pub set_int : Value → List ℕ → ℕ → Heap → Heap
  pub get_int : Value → List ℕ → Heap → Option ℕ
  pub define_property : Value → List ℕ → ℕ → Option ℕ → Heap → Heap
  pub free_value : Value → Heap → Heap

module _ (o : Objects) (f : Floats) (P : Type 0) where
  -- The context, the heap of the engine, the instance behind each `JSClassInstanceInfo`, the members of
  -- each instance, the next address of each kind, and the state of the program.
  pub record World : Type 0 where
    pub context : SwiftContext f.Double P ClassInfo
    pub heap : o.Heap
    pub infos : ℕ → Option ℕ
    pub next_info : ℕ
    pub instances : ℕ → Members f.Double P
    pub next_instance : ℕ
    pub program : P

module _ (o : Objects) where
  -- `JS_DefineProperty` for each of the properties.
  unfoldable pub define_all : Value → List (List ℕ × ℕ × Option ℕ) → o.Heap → o.Heap
  define_all v [] h = h
  define_all v ((name, getter, setter) ∷ ds) h =
      define_all v ds (o.define_property v name getter setter h)

module _ (o : Objects) (f : Floats) {P : Type 0} where
  open f use {Double}

  -- The new object and its `JSClassInstanceInfo`: `JS_SetOpaque`, and the class under "__instanceAtom".
  unfoldable pub attach : Value → ℕ → ClassInfo → World o f P → World o f P
  attach v i info w = record w {
    infos = set_at w.infos w.next_info (some i);
    next_info = w.next_info + 1;
    heap = o.set_int v instance_atom info.class_id (o.set_opaque v w.next_info w.heap);
  }

  -- The instance of `this`: `JS_GetOpaque` with the class under "__instanceAtom". The outer `none` is the
  -- trap of `JSClassID` on a negative number, which a script can store there.
  unfoldable pub instance_of_object : Value → World o f P → Option (Option ℕ)
  instance_of_object this w = o.get_int this instance_atom w.heap >>= λ k.
      some (o.get_opaque this k w.heap >>= λ ptr. w.infos ptr)

  -- `typedInstanceMethod` on an object.
  unfoldable pub call_method :
      ℕ
      → Bool
      → Value
      → ℕ
      → Option (List (JsValue Double))
      → World o f P
      → Option (JsValue Double × World o f P)
  unfolding typed_instance_method instance_of_object
  call_method made known this magic argv w =
      typed_instance_method f made (if known then some w.context else none)
        (instance_of_object this w >>= λ found. some (found >>= λ i. some (w.instances i).methods))
        magic argv w.program
      >>= λ r. some (r.0, record w { program = r.1 })

-- `findExport(classType:)` on the entries in the order in which the dictionary is gone through: the
-- identifier of the first class of the type.
unfoldable pub find_class_type : ℕ → Table ClassInfo → Option ℕ
find_class_type type_id [] = none
find_class_type type_id ((k, info) ∷ classes) =
    if info.type_id == type_id then some k else find_class_type type_id classes

-- The instance of a class record is replaced; the table holds a reference to it.
unfoldable pub waiting_in : ℕ → Option ℕ → Table ClassInfo → Table ClassInfo
waiting_in k i [] = []
waiting_in k i ((j, info) ∷ classes) =
    (j, if j == k then record info { waiting_to_attach = i } else info) ∷ waiting_in k i classes

unfoldable pub class_of_result : {D : Type 0} → JsValue D → Option Value
class_of_result (instance_of v) = some v
class_of_result _ = none

module _ (o : Objects) (f : Floats) {P : Type 0} where
  -- `classInfo.waitingToAttach = …`
  unfoldable pub set_waiting : ℕ → Option ℕ → World o f P → World o f P
  unfolding waiting_in
  set_waiting k i w = record w {
    context = record w.context { classes = waiting_in k i w.context.classes };
  }

module _ (o : Objects) (f : Floats) {P : Type 0} (types : ℕ → ClassType f.Double P) where
  open f use {Double}

  -- `classType.waitingToAttach ?? classType.type.init()`
  unfoldable pub instance_for : ClassInfo → World o f P → ℕ × World o f P
  instance_for info w = elim info.waiting_to_attach [
    | some i ↦ (i, w)
    | none ↦
        (let (members, p) = (types info.type_id).init w.program in
          (
            w.next_instance,
            record w {
              instances = set_at w.instances w.next_instance members;
              next_instance = w.next_instance + 1;
              program = p;
            },
          ))
  ]

  module _ (made : ℕ) where
    -- The properties of the instance, and the object as the result.
    unfoldable pub finish : Value → ℕ → World o f P → Option (JsValue Double × World o f P)
    unfolding define_all
    finish v i w = do
      (defined, c) ← export_properties f made (w.instances i).properties w.context
      some (instance_of v, record w { context = c; heap = define_all o v defined w.heap })

    -- After `instance.construct(args:)` returned or threw; `ptr` is the address of the
    -- `JSClassInstanceInfo`.
    unfoldable pub after_construct :
        Value
        → ℕ
        → ℕ
        → World o f P
        → (Members Double P × Option (List ℕ)) × P
        → Option (JsValue Double × World o f P)
    unfolding finish
    after_construct v i ptr w ((members, none), p) =
        finish v i (record w { instances = set_at w.instances i members; program = p })
    after_construct v i ptr w ((members, some description), p) = some (
      throw_error f made description,
      record w {
        instances = set_at w.instances i members;
        program = p;
        heap = if w.context.shutting_down then w.heap else o.free_value v w.heap;
        infos = set_at w.infos ptr none;
      },
    )

    -- `typedConstruct` once it has found the class.
    unfoldable pub construct_object :
        Value
        → List (Native Double)
        → ClassInfo
        → World o f P
        → Option (JsValue Double × World o f P)
    unfolding instance_for attach after_construct finish
    construct_object this args info w =
        let (v, h) = o.create_from_ctor this info.class_id w.heap in
        let (i, w1) = instance_for info (record w { heap = h }) in
        let w2 = attach o f v i info w1 in
        elim info.waiting_to_attach [
          | some j ↦ finish v i w2
          | none ↦
              after_construct v i w1.next_info w2
                ((types info.type_id).construct args (w2.instances i) w2.program)
        ]

    -- `known` tells whether the opaque pointer of the context is there.
    unfoldable pub typed_construct :
        Bool
        → Value
        → ℕ
        → Option (List (JsValue Double))
        → World o f P
        → Option (JsValue Double × World o f P)
    unfolding js_args_to_types construct_object
    typed_construct known this magic argv w =
        if known
        then (js_args_to_types f made argv >>= λ args. elim (find_class w.context magic) [
          | none ↦ some (undefined, w)
          | some info ↦ construct_object this args info w
        ])
        else some (undefined, w)

    -- `export(instance:className:as:)`: `exported` is the answer of `isExported` on the class name,
    -- `register` what `export(type:className:)` does, and `eval` runs the script, with what the
    -- constructor of the class calls. `order` gives the entries of the table of classes in the order of
    -- the dictionary. `JSClass` takes the object of the result, if there is one.
    unfoldable pub export_instance :
        (Table ClassInfo → Table ClassInfo)
        → Bool
        → (World o f P → Option (World o f P))
        → ((Value
              → ℕ
              → Option (List (JsValue Double))
              → World o f P
              → Option (JsValue Double × World o f P))
            → World o f P
            → Option (JsValue Double × World o f P))
        → ℕ
        → ℕ
        → World o f P
        → Option (Option Value × World o f P)
    unfolding find_class_type set_waiting class_of_result typed_construct
    export_instance order exported register eval type_id instance w = do
      w1 ← if exported then some w else register w
      if w1.context.shutting_down
          then some (none, w1)
          else elim (find_class_type type_id (order w1.context.classes)) [
            | none ↦ some (none, w1)
            | some k ↦ do
              (r, w2) ← eval (typed_construct true) (set_waiting o f k (some instance) w1)
              some (class_of_result r, set_waiting o f k none w2)
          ]
