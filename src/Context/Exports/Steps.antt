-- ===== src/Context/Exports/Steps.antt =====
-- What one export does to a valid context.
use substrata_swift.Prelude.{ℕ, ◌+◌, ◌≡◌, refl, arith, ==_iff, some, List}
use substrata_swift.Prelude.{Table, find, put, Below, find-put, find-Below, Below-suc, put-Below}
use substrata_swift.Context.{Context, add_new, find_function, find_getter, find_setter, find_class}
use substrata_swift.Context.{
  find_method, add_function, add_getter, add_setter, add_class, add_method,
}
use substrata_swift.Context.Exports.{IsValid, Export, export, Found}
use substrata_swift.Context.Exports.Export.{function, getter, setter, class_info, method}

module _ {V : Type 0} (t : Table V) (n id : ℕ) (v : V) (b : Below n t) (e : n ≡ id) where
  add_new-put : add_new t id v ≡ put t id v
  unfolding add_new
  add_new-put = ground (arith, find-Below t n id b)

  put-Below_fresh : Below (n + 1) (put t id v)
  put-Below_fresh = put-Below t (n + 1) id v (omega arith) (Below-suc t n (n + 1) (omega arith) b)

  -- The new entry is found, and so is every old one.
  find-put_self : find (put t id v) id ≡ some v
  find-put_self = ground (arith, find-put t id id v, ==_iff id id)

  find-put_old : (j : ℕ) (w : V) → find t j ≡ some w → find (put t id v) j ≡ some w
  find-put_old j w h = ground (arith, find-put t id j v, ==_iff id j, find-Below t n j b)

module _ {F G S C : Type 0} where
  pub record Exported (c c' : Context F G S C) (e : Export F G S C) (id : ℕ) : Type 0 where
    pub valid : IsValid c'
    pub found : Found c' e id
    pub kept : (e' : Export F G S C) (j : ℕ) → Found c e' j → Found c' e' j

  function_kept :
      (c : Context F G S C) (n : ℕ) (x : F)
      → IsValid c
      → (e : Export F G S C) (j : ℕ) → Found c e j
      → Found
          (record c { function_counter = n; functions = put c.functions c.function_counter x })
          e
          j
  unfolding find_function find_getter find_setter find_class find_method
  function_kept c n x v (function g) j h =
      find-put_old c.functions c.function_counter c.function_counter x v.functions_below refl j g h
  function_kept c n x v (getter g) j h = h
  function_kept c n x v (setter g) j h = h
  function_kept c n x v (class_info g) j h = h
  function_kept c n x v (method g) j h = h

  function-Exported :
      (c : Context F G S C) (x : F)
      → IsValid c
      → Exported c
          (record c {
            function_counter = c.function_counter + 1;
            functions = add_new c.functions c.function_counter x;
          })
          (function x)
          c.function_counter
  unfolding find_function find_getter find_setter find_class find_method
  function-Exported c x v =
      rw (add_new-put c.functions c.function_counter c.function_counter x v.functions_below refl)
        (record {
          valid = record {
            functions_below =
                put-Below_fresh c.functions c.function_counter c.function_counter x
                  v.functions_below refl;
            getters_below = v.getters_below;
            setters_below = v.setters_below;
            classes_below = v.classes_below;
            methods_below = v.methods_below;
          };
          found =
              find-put_self c.functions c.function_counter c.function_counter x v.functions_below
                refl;
          kept = function_kept c (c.function_counter + 1) x v;
        })

  getter_kept :
      (c : Context F G S C) (n : ℕ) (x : G)
      → IsValid c
      → (e : Export F G S C) (j : ℕ) → Found c e j
      → Found
          (record c {
            property_counter = n;
            property_getters = put c.property_getters c.property_counter x;
          })
          e
          j
  unfolding find_function find_getter find_setter find_class find_method
  getter_kept c n x v (function g) j h = h
  getter_kept c n x v (getter g) j h =
      find-put_old c.property_getters c.property_counter c.property_counter x v.getters_below refl j
        g h
  getter_kept c n x v (setter g) j h = h
  getter_kept c n x v (class_info g) j h = h
  getter_kept c n x v (method g) j h = h

  getter-Exported :
      (c : Context F G S C) (x : G)
      → IsValid c
      → Exported c
          (record c {
            property_counter = c.property_counter + 1;
            property_getters = add_new c.property_getters c.property_counter x;
          })
          (getter x)
          c.property_counter
  unfolding find_function find_getter find_setter find_class find_method
  getter-Exported c x v =
      rw
        (add_new-put c.property_getters c.property_counter c.property_counter x v.getters_below
          refl)
        (record {
          valid = record {
            functions_below = v.functions_below;
            getters_below =
                put-Below_fresh c.property_getters c.property_counter c.property_counter x
                  v.getters_below refl;
            setters_below =
                Below-suc c.property_setters c.property_counter (c.property_counter + 1)
                  (omega arith) v.setters_below;
            classes_below = v.classes_below;
            methods_below = v.methods_below;
          };
          found =
              find-put_self c.property_getters c.property_counter c.property_counter x
                v.getters_below refl;
          kept = getter_kept c (c.property_counter + 1) x v;
        })

  setter_kept :
      (c : Context F G S C) (n : ℕ) (x : S)
      → IsValid c
      → (e : Export F G S C) (j : ℕ) → Found c e j
      → Found
          (record c {
            property_counter = n;
            property_setters = put c.property_setters c.property_counter x;
          })
          e
          j
  unfolding find_function find_getter find_setter find_class find_method
  setter_kept c n x v (function g) j h = h
  setter_kept c n x v (getter g) j h = h
  setter_kept c n x v (setter g) j h =
      find-put_old c.property_setters c.property_counter c.property_counter x v.setters_below refl j
        g h
  setter_kept c n x v (class_info g) j h = h
  setter_kept c n x v (method g) j h = h

  setter-Exported :
      (c : Context F G S C) (x : S)
      → IsValid c
      → Exported c
          (record c {
            property_counter = c.property_counter + 1;
            property_setters = add_new c.property_setters c.property_counter x;
          })
          (setter x)
          c.property_counter
  unfolding find_function find_getter find_setter find_class find_method
  setter-Exported c x v =
      rw
        (add_new-put c.property_setters c.property_counter c.property_counter x v.setters_below
          refl)
        (record {
          valid = record {
            functions_below = v.functions_below;
            getters_below =
                Below-suc c.property_getters c.property_counter (c.property_counter + 1)
                  (omega arith) v.getters_below;
            setters_below =
                put-Below_fresh c.property_setters c.property_counter c.property_counter x
                  v.setters_below refl;
            classes_below = v.classes_below;
            methods_below = v.methods_below;
          };
          found =
              find-put_self c.property_setters c.property_counter c.property_counter x
                v.setters_below refl;
          kept = setter_kept c (c.property_counter + 1) x v;
        })

  class_info_kept :
      (c : Context F G S C) (n : ℕ) (x : C)
      → IsValid c
      → (e : Export F G S C) (j : ℕ) → Found c e j
      → Found (record c { class_counter = n; classes = put c.classes c.class_counter x }) e j
  unfolding find_function find_getter find_setter find_class find_method
  class_info_kept c n x v (function g) j h = h
  class_info_kept c n x v (getter g) j h = h
  class_info_kept c n x v (setter g) j h = h
  class_info_kept c n x v (class_info g) j h =
      find-put_old c.classes c.class_counter c.class_counter x v.classes_below refl j g h
  class_info_kept c n x v (method g) j h = h

  class_info-Exported :
      (c : Context F G S C) (x : C)
      → IsValid c
      → Exported c
          (record c {
            class_counter = c.class_counter + 1;
            classes = add_new c.classes c.class_counter x;
          })
          (class_info x)
          c.class_counter
  unfolding find_function find_getter find_setter find_class find_method
  class_info-Exported c x v =
      rw (add_new-put c.classes c.class_counter c.class_counter x v.classes_below refl) (record {
        valid = record {
          functions_below = v.functions_below;
          getters_below = v.getters_below;
          setters_below = v.setters_below;
          classes_below =
              put-Below_fresh c.classes c.class_counter c.class_counter x v.classes_below refl;
          methods_below = v.methods_below;
        };
        found = find-put_self c.classes c.class_counter c.class_counter x v.classes_below refl;
        kept = class_info_kept c (c.class_counter + 1) x v;
      })

  method_kept :
      (c : Context F G S C) (n : ℕ) (x : List ℕ)
      → IsValid c
      → (e : Export F G S C) (j : ℕ) → Found c e j
      → Found
          (record c { method_counter = n; method_ids = put c.method_ids c.method_counter x })
          e
          j
  unfolding find_function find_getter find_setter find_class find_method
  method_kept c n x v (function g) j h = h
  method_kept c n x v (getter g) j h = h
  method_kept c n x v (setter g) j h = h
  method_kept c n x v (class_info g) j h = h
  method_kept c n x v (method g) j h =
      find-put_old c.method_ids c.method_counter c.method_counter x v.methods_below refl j g h

  method-Exported :
      (c : Context F G S C) (x : List ℕ)
      → IsValid c
      → Exported c
          (record c {
            method_counter = c.method_counter + 1;
            method_ids = put c.method_ids c.method_counter x;
          })
          (method x)
          c.method_counter
  unfolding find_function find_getter find_setter find_class find_method
  method-Exported c x v = (record {
    valid = record {
      functions_below = v.functions_below;
      getters_below = v.getters_below;
      setters_below = v.setters_below;
      classes_below = v.classes_below;
      methods_below =
          put-Below_fresh c.method_ids c.method_counter c.method_counter x v.methods_below refl;
    };
    found = find-put_self c.method_ids c.method_counter c.method_counter x v.methods_below refl;
    kept = method_kept c (c.method_counter + 1) x v;
  })

  -- A successful export keeps the context valid, is found under its identifier, and leaves every other
  -- export where it was.
  pub export-Exported :
      (c c' : Context F G S C) (e : Export F G S C) (id : ℕ)
      → IsValid c
      → export e c ≡ some (id, c')
      → Exported c c' e id
  unfolding export add_function add_getter add_setter add_class add_method
  export-Exported c c' (function x) id v h =
      let made : (c.function_counter ≡ id)
          × (record c {
            function_counter = c.function_counter + 1;
            functions = add_new c.functions c.function_counter x;
          }
              ≡ c') =
        ground arith in
      rw (← made.0, ← made.1) (function-Exported c x v)
  export-Exported c c' (getter x) id v h =
      let made : (c.property_counter ≡ id)
          × (record c {
            property_counter = c.property_counter + 1;
            property_getters = add_new c.property_getters c.property_counter x;
          }
              ≡ c') =
        ground arith in
      rw (← made.0, ← made.1) (getter-Exported c x v)
  export-Exported c c' (setter x) id v h =
      let made : (c.property_counter ≡ id)
          × (record c {
            property_counter = c.property_counter + 1;
            property_setters = add_new c.property_setters c.property_counter x;
          }
              ≡ c') =
        ground arith in
      rw (← made.0, ← made.1) (setter-Exported c x v)
  export-Exported c c' (class_info x) id v h =
      let made : (c.class_counter ≡ id)
          × (record c {
            class_counter = c.class_counter + 1;
            classes = add_new c.classes c.class_counter x;
          }
              ≡ c') =
        ground arith in
      rw (← made.0, ← made.1) (class_info-Exported c x v)
  export-Exported c c' (method x) id v h =
      let made : (c.method_counter ≡ id)
          × (record c {
            method_counter = c.method_counter + 1;
            method_ids = put c.method_ids c.method_counter x;
          }
              ≡ c') =
        ground arith in
      rw (← made.0, ← made.1) (method-Exported c x v)
