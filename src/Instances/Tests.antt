-- ===== src/Instances/Tests.antt =====
-- The theorems on instances at a small heap of objects, and that such heaps meet the laws.
use substrata_swift.Prelude.{
  ℕ, ◌+◌, ◌<◌, ◌==◌, ==_iff, ◌≡◌, ◌≢◌, refl, arith, if◌then◌else◌, ap, Bool, true, false,
}
use substrata_swift.Prelude.{Option, none, some, ◌>>=◌, List, [], ◌∷◌, ltb, set_at, ◌&&◌}
use substrata_swift.Prelude.Int.{pos}
use substrata_swift.Str.{memcmp_equal}
use substrata_swift.Str.Parts.{memcmp_equal_iff}
use substrata_swift.Conversion.{JsValue, Native, instance_of, int, int32}
use substrata_swift.Conversion.Tests.{halves, Halves}
use substrata_swift.Context.{Value, new_context}
use substrata_swift.Callbacks.{Function, returned, return_function, throw_error}
use substrata_swift.Instances.{Objects, World, ClassInfo, ClassType, Members}
use substrata_swift.Instances.{typed_construct, construct_object, instance_for, attach, finish}
use substrata_swift.Instances.{after_construct, define_all, export_instance, call_method}
use substrata_swift.Instances.Attached.{Laws, Attached}
use substrata_swift.Instances.Construct.{Plain}
use substrata_swift.Instances.Made.{Made, construct_object-new, construct_object-thrown}
use substrata_swift.Instances.Runs.{Event, ArePlain, IsReady, run, step, call_method-run}
use substrata_swift.Instances.Statics.{concat, shared_after, method_named-shared_after}
use substrata_swift.Callbacks.{js_args_to_types, args_loop, export_properties, method_named}
use substrata_swift.Conversion.{to_native, number}
use substrata_swift.Context.{find_class, find_method}

-- The number of objects, and of each its class, its pointer and its integers.
record Store : Type 0 where
  count : ℕ
  class : ℕ → ℕ
  opaque : ℕ → ℕ
  ints : ℕ → List ℕ → ℕ
  live : ℕ → Bool

unfoldable put_int : (ℕ → List ℕ → ℕ) → ℕ → List ℕ → ℕ → ℕ → List ℕ → ℕ
put_int s o name n o' name' = if o == o' && memcmp_equal name name' then n else s o' name'

unfoldable objects : Objects
unfolding put_int
objects = record {
  Heap = Store;
  create_from_ctor = λ t k h. (
    h.count,
    record h {
      count = h.count + 1;
      class = set_at h.class h.count k;
      live = set_at h.live h.count true;
    },
  );
  set_opaque = λ v p h. record h { opaque = set_at h.opaque v p };
  get_opaque = λ v k h. if h.class v == k then some (h.opaque v) else none;
  set_int = λ v name n h. record h { ints = put_int h.ints v name n };
  get_int = λ v name h. some (h.ints v name);
  define_property = λ v name g s h. h;
  free_value = λ v h. record h { live = set_at h.live v false };
}

unfoldable class_in : Value → Store → Option ℕ
class_in v h = if ltb v h.count && h.live v then some (h.class v) else none

unfoldable class_of : Value → objects.Heap → Option ℕ
unfolding objects class_in
class_of = class_in

put_int_self : (s : ℕ → List ℕ → ℕ) (o n : ℕ) (name : List ℕ) → put_int s o name n o name ≡ n
unfolding put_int
put_int_self s o n name = ground (arith, ==_iff o o, memcmp_equal_iff name name)

put_int_other :
    (s : ℕ → List ℕ → ℕ) (o o' n : ℕ) (name name' : List ℕ)
    → o' ≢ o
    → put_int s o name n o' name' ≡ s o' name'
unfolding put_int
put_int_other s o o' n name name' apart = ground (arith, ==_iff o o')

objects-Laws : Laws objects class_of
unfolding objects class_of class_in
objects-Laws = record {
  created = λ t k h. (ground (arith, ==_iff h.count h.count), ground arith);
  created_kept = λ t k u j name h e.
      (ground (arith, ==_iff h.count u), ground (arith, ==_iff h.count u), refl);
  opaque_set = λ v k p h e. ground (arith, ==_iff v v, ==_iff (h.class v) k);
  opaque_kept = λ v u j p h apart. ground (arith, ==_iff v u);
  opaque_others = λ v u p name h. (refl, refl);
  int_set = λ v n name h. ap some (put_int_self h.ints v n name);
  int_kept = λ v u n name other h apart. ap some (put_int_other h.ints v u n name other apart);
  int_others = λ v u j n name h. (refl, refl);
  define_others = λ v u j g s name h. (refl, refl);
  define_kept = λ v u g s name other h apart. refl;
  freed_kept = λ t k p n u j name other h e. (ground (arith, e, ==_iff h.count u), refl, refl);
  freed = λ t k p n name h. ground (arith, ==_iff h.count h.count);
}

-- Returns its first argument, and counts its runs.
abbrev first_of : Function Halves ℕ
first_of [] runs = (returned none, runs + 1)
first_of (n ∷ ns) runs = (returned (some n), runs + 1)

-- A class with one method; its `construct` wants an argument.
abbrev members : Members Halves ℕ
members = record { methods = (97 ∷ [], first_of) ∷ []; properties = [] }

abbrev build :
    List (Native Halves) → Members Halves ℕ → ℕ → (Members Halves ℕ × Option (List ℕ)) × ℕ
build [] m runs = ((m, some (120 ∷ [])), runs)
build (n ∷ ns) m runs = ((m, none), runs + 10)

abbrev types : ℕ → ClassType Halves ℕ
types t = record { init = λ runs. (members, runs); construct = build }

abbrev info : ClassInfo
info = record { type_id = 3; class_id = 1; waiting_to_attach = none }

abbrev Small : Type 0
Small = World objects halves ℕ

unfoldable heap : objects.Heap
unfolding objects
heap = record { count = 1; class = λ u. 1; opaque = λ u. 0; ints = λ u name. 1; live = λ u. true }

-- One object is there, with its instance.
abbrev start : Small
start = record {
  context = record (new_context 0) {
    class_counter = 1;
    classes = (0, info) ∷ [];
    method_counter = 1;
    method_ids = (0, 97 ∷ []) ∷ [];
  };
  heap = heap;
  infos = λ p. some 0;
  next_info = 1;
  instances = λ i. members;
  next_instance = 1;
  program = 7;
}

start-Attached : Attached objects class_of halves ℕ start 0 0
unfolding heap objects class_of class_in
start-Attached = record {
  class_id = 1;
  info = 0;
  tagged = record { class = refl; opaque = refl; atom = refl };
  known = refl;
  old = omega arith;
  made = omega arith;
}

start-IsReady : IsReady objects halves start
unfolding new_context
start-IsReady = record {
  plain = λ i l. tt;
  waiting = λ k i other e waits. ground (arith, e, waits);
}

types-ArePlain : ArePlain types
types-ArePlain = record { init = λ t p. tt; construct = construct_plain }
  where
    construct_plain :
        (t : ℕ) (args : List (Native Halves)) (m : Members Halves ℕ) (p : ℕ)
        → Plain m.properties
        → Plain (build args m p).0.0.properties
    construct_plain t [] m p h = h
    construct_plain t (n ∷ ns) m p h = h

abbrev world_of : Option (JsValue Halves × Small) → Small
world_of none = start
world_of (some (r, w)) = w

abbrev result_of : Option (JsValue Halves × Small) → JsValue Halves
result_of none = instance_of 0
result_of (some (r, w)) = r

abbrev argv : Option (List (JsValue Halves))
argv = some (int32 (pos 5) ∷ [])

-- Another object is made.
abbrev events : List (Event Halves)
events = Event.construct 0 0 argv ∷ []

abbrev later : Small
later = world_of (typed_construct objects halves types 0 true 0 0 argv start)

runs_there : run objects halves types 0 events start ≡ some later
unfolding run step typed_construct find_class new_context js_args_to_types args_loop to_native
    number construct_object instance_for attach after_construct finish define_all export_properties
    heap objects
runs_there = refl

takes : js_args_to_types halves 0 argv ≡ some (int (pos 5) ∷ [])
unfolding js_args_to_types args_loop to_native number
takes = refl

call_method-run_example : call_method objects halves 0 true 0 0 argv later ≡ (
    return_function halves 0 (first_of (int (pos 5) ∷ []) later.program) >>= λ r.
    some (r.0, record later { program = r.1 }))
unfolding run step typed_construct find_class new_context js_args_to_types args_loop to_native
    number construct_object instance_for attach after_construct finish define_all export_properties
    heap objects find_method method_named memcmp_equal
call_method-run_example =
    call_method-run objects class_of objects-Laws halves types 0 events start later 0 0 0 (97 ∷ [])
      first_of argv (int (pos 5) ∷ []) types-ArePlain start-IsReady start-Attached runs_there refl
      refl takes

abbrev made_there : Small
made_there = world_of (construct_object objects halves types 0 0 (int (pos 5) ∷ []) info start)

abbrev the_object : JsValue Halves
the_object = instance_of 1

made_it :
    construct_object objects halves types 0 0 (int (pos 5) ∷ []) info start
    ≡ some (the_object, made_there)
unfolding construct_object instance_for attach after_construct finish define_all export_properties
    heap objects
made_it = refl

construct_object-new_example :
    (the_object ≡ instance_of 1)
    × Made objects class_of halves start made_there 1 1
    × (made_there.instances 1 ≡ members)
    × (made_there.program ≡ 17)
    × (made_there.next_instance ≡ 2)
unfolding heap objects
construct_object-new_example =
    construct_object-new objects class_of objects-Laws halves types 0 0 (int (pos 5) ∷ []) info
      start made_there the_object refl refl tt made_it

abbrev refused : Option (JsValue Halves × Small)
refused = construct_object objects halves types 0 0 [] info start

refusal : refused ≡ some (throw_error halves 0 (120 ∷ []), world_of refused)
unfolding construct_object instance_for attach after_construct finish define_all export_properties
    heap objects
refusal = refl

construct_object-thrown_example :
    (throw_error halves 0 (120 ∷ []) ≡ throw_error halves 0 (120 ∷ []))
    × ((world_of refused).context ≡ start.context)
    × ((world_of refused).program ≡ 7)
    × ((world_of refused).next_instance ≡ 2)
    × ((world_of refused).instances 1 ≡ members)
    × ((world_of refused).infos 1 ≡ none)
    × (false ≡ false → class_of 1 (world_of refused).heap ≡ none)
    × ((u j : ℕ)
        → Attached objects class_of halves ℕ start u j
        → Attached objects class_of halves ℕ (world_of refused) u j)
    × ((j : ℕ) → j < 1 → (world_of refused).instances j ≡ start.instances j)
unfolding new_context objects heap
construct_object-thrown_example =
    construct_object-thrown objects class_of objects-Laws halves types 0 0 [] info start
      (world_of refused) (throw_error halves 0 (120 ∷ [])) (120 ∷ []) refl refl refusal

-- A script that calls the constructor, and a heap in which variables are not seen.
abbrev script :
    (Value → ℕ → Option (List (JsValue Halves)) → Small → Option (JsValue Halves × Small))
    → Small
    → Option (JsValue Halves × Small)
script constructor w = constructor 0 0 (some []) w

abbrev attached_there : Small
attached_there =
    elim (export_instance objects halves types 0 (λ t. t) true some script 3 0 start)
      as (λ r. Small) [ none ↦ start | some (v, w) ↦ w ]

-- The class that is exported second gets the method of the first.
abbrev classes : List (List (List ℕ × ℕ))
classes = ((97 ∷ [], 1) ∷ []) ∷ ((97 ∷ [], 2) ∷ []) ∷ []

method_named-shared_after_example :
    method_named (shared_after classes []) (97 ∷ []) ≡ method_named (concat classes) (97 ∷ [])
method_named-shared_after_example = method_named-shared_after classes [] (97 ∷ [])
