-- ===== src/Engine/Tests.antt =====
-- The theorems on exports at a small heap of functions, and that such heaps meet the laws asked for.
use substrata_swift.Prelude.{
  ℕ, ◌+◌, ◌-◌, ◌<◌, ◌^◌, ◌==◌, ==_iff, ◌≡◌, refl, ◌∙◌, arith, if◌then◌else◌, Bool, true, false,
}
use substrata_swift.Prelude.{Option, none, some, List, [], ◌∷◌, ◌&&◌}
use substrata_swift.Context.{Value, new_context, find_class}
use substrata_swift.Context.{new_class_id, new_method_id, new_function_id, new_property_id}
use substrata_swift.Context.{add_class, add_method, add_function, add_getter}
use substrata_swift.Conversion.Tests.{halves, Halves}
use substrata_swift.Callbacks.{magic_of}
use substrata_swift.Callbacks.{SwiftContext, Function, Getter, Setter, returned, export_properties}
use substrata_swift.Callbacks.Properties.{Defined}
use substrata_swift.Engine.Limits.{Allowed, set_limits, first_limits, first_limits-Allowed}
use substrata_swift.Engine.Limits.{set_limits-Allowed}
use substrata_swift.Engine.Types.{Methods, Statics, register_type-Found}
use substrata_swift.Context.Exports.{IsValid, Export, Found}
use substrata_swift.Context.Exports.Kept.{new_context-IsValid}
use substrata_swift.Str.{memcmp_equal}
use substrata_swift.Engine.{Quickjs, Engine, export_function, drop_function, register_type}
use substrata_swift.Engine.{export_methods, export_statics}
use substrata_swift.Engine.Counting.{Counts, Callable, export_function-Callable}

-- A heap of functions: the number of them, their counts and identifiers, and the properties.
record Functions : Type 0 where
  made : ℕ
  counts : ℕ → ℕ
  ids : ℕ → Option ℕ
  properties : ℕ → List ℕ → Option ℕ

unfoldable change : {A : Type 0} → (ℕ → A) → ℕ → A → ℕ → A
change f i a j = if i == j then a else f j

unfoldable has : Option ℕ → Bool
has none = false
has (some v) = true

unfoldable put_property : (ℕ → List ℕ → Option ℕ) → ℕ → List ℕ → ℕ → ℕ → List ℕ → Option ℕ
put_property p o name v o' name' = if o == o' && memcmp_equal name name' then some v else p o' name'

unfoldable small : Quickjs
unfolding change has put_property
small = record {
  Heap = Functions;
  new_c_function = λ name id h. (
    h.made,
    record h {
      made = h.made + 1;
      counts = change h.counts h.made 1;
      ids = change h.ids h.made (magic_of id);
    },
  );
  set_property_str = λ o name v h. record h { properties = put_property h.properties o name v };
  has_property = λ o name h. has (h.properties o name);
  dup_value = λ v h. record h { counts = change h.counts v (h.counts v + 1) };
  free_value = λ v h. record h { counts = change h.counts v (h.counts v - 1) };
  property = λ o name h. h.properties o name;
  ref_count = λ v h. h.counts v;
  magic = λ v h. h.ids v;
}

change_self : {A : Type 0} (f : ℕ → A) (i : ℕ) (a : A) → change f i a i ≡ a
unfolding change
change_self f i a = ground (arith, ==_iff i i)

memcmp_equal_self : (name : List ℕ) → memcmp_equal name name ≡ true
unfolding memcmp_equal
memcmp_equal_self [] = refl
memcmp_equal_self (c ∷ name) = ground (arith, ==_iff c c, memcmp_equal_self name)

put_property_self :
    (p : ℕ → List ℕ → Option ℕ) (o : ℕ) (name : List ℕ) (v : ℕ)
    → put_property p o name v o name ≡ some v
unfolding put_property
put_property_self p o name v = ground (arith, ==_iff o o, memcmp_equal_self name)

small-Counts : Counts small
unfolding small has
small-Counts = record {
  new_counted =
      λ name id h. (change_self h.counts h.made 1, change_self h.ids h.made (magic_of id));
  new_kept = λ name id o other h. refl;
  set_stored = λ o v name h absent. (put_property_self h.properties o name v, refl, refl);
  dup_counted = λ v h. change_self h.counts v (h.counts v + 1);
  dup_kept = λ v o name h. (refl, refl);
  free_counted = λ v n h e. change_self h.counts v (h.counts v - 1) ∙ omega (arith, e);
  free_kept = λ v o n name h e. (refl, refl);
  found = λ o v name h e. rw e refl;
}

unfoldable no_functions : small.Heap
unfolding small
no_functions = record { made = 1; counts = λ v. 1; ids = λ v. none; properties = λ o name. none }

abbrev fresh : Engine small ℕ ℕ ℕ ℕ
fresh = record { context = new_context 0; heap = no_functions }

-- The engine after the export.
abbrev exported : Option (Option Value × Engine small ℕ ℕ ℕ ℕ)
exported = export_function small true (97 ∷ []) 42 fresh

abbrev engine_of : Option (Option Value × Engine small ℕ ℕ ℕ ℕ) → Engine small ℕ ℕ ℕ ℕ
engine_of none = fresh
engine_of (some (v, e)) = e

abbrev after_export : Engine small ℕ ℕ ℕ ℕ
after_export = engine_of exported

export_done : exported ≡ some (some 1, after_export)
unfolding export_function no_functions small new_context new_function_id magic_of
export_done = refl

few_exports : fresh.context.function_counter < 2 ^ 15
unfolding new_context
few_exports = omega arith

export_function-Callable_example :
    Callable small after_export (97 ∷ []) 1 42
    × IsValid after_export.context
    × (small.ref_count 1 (drop_function small 1 after_export).heap ≡ 0)
export_function-Callable_example =
    export_function-Callable small true (97 ∷ []) 42 fresh after_export 1 small-Counts
      (new_context-IsValid 0) few_exports export_done

abbrev with_type : SwiftContext Halves ℕ ℕ
with_type = record (new_context 0) {
  class_counter = 1;
  classes = (0, 5) ∷ [];
  method_counter = 1;
  method_ids = (0, 97 ∷ []) ∷ [];
  function_counter = 1;
  functions = (0, λ args r. (returned none, r)) ∷ [];
  property_counter = 1;
  property_getters = (0, λ r. (returned none, r)) ∷ [];
}

type_done :
    register_type halves 0 5
      ((97 ∷ []) ∷ [])
      ((98 ∷ [], λ args r. (returned none, r)) ∷ [])
      ((99 ∷ [], λ r. (returned none, r), none) ∷ [])
      (new_context 0)
    ≡ some ((0, (97 ∷ [], 0) ∷ [], (98 ∷ [], 0) ∷ [], (99 ∷ [], 0, none) ∷ []), with_type)
unfolding register_type new_context new_class_id new_method_id new_function_id new_property_id
    export_methods add_class export_statics add_method export_properties add_function add_getter
type_done = refl

register_type-Found_example :
    IsValid with_type
    × (find_class with_type 0 ≡ some 5)
    × Methods halves ℕ ℕ with_type ((97 ∷ []) ∷ []) ((97 ∷ [], 0) ∷ [])
    × Statics halves ℕ ℕ with_type
        ((98 ∷ [], λ args r. (returned none, r)) ∷ [])
        ((98 ∷ [], 0) ∷ [])
    × Defined halves ℕ ℕ with_type
        ((99 ∷ [], λ r. (returned none, r), none) ∷ [])
        ((99 ∷ [], 0, none) ∷ [])
    × ((e : Export (Function Halves ℕ) (Getter Halves ℕ) (Setter Halves ℕ) ℕ) (j : ℕ)
        → Found (new_context 0) e j
        → Found with_type e j)
register_type-Found_example =
    register_type-Found halves ℕ ℕ 0 5 ((97 ∷ []) ∷ [])
      ((98 ∷ [], λ args r. (returned none, r)) ∷ []) ((99 ∷ [], λ r. (returned none, r), none) ∷ [])
      (new_context 0) with_type 0 ((97 ∷ [], 0) ∷ []) ((98 ∷ [], 0) ∷ []) ((99 ∷ [], 0, none) ∷ [])
      (new_context-IsValid 0) type_done

set_limits-Allowed_example :
    Allowed (set_limits false 100000 5 first_limits)
    × (false ≡ false → Allowed (100000, 5) → set_limits false 100000 5 first_limits ≡ (100000, 5))
    × (set_limits false 100000 5 (set_limits false 100000 5 first_limits)
        ≡ set_limits false 100000 5 first_limits)
set_limits-Allowed_example = set_limits-Allowed false 100000 5 first_limits first_limits-Allowed
