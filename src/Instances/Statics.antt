-- ===== src/Instances/Statics.antt =====
-- The dictionaries of `JSExport` in Sources/Substrata/Types.swift: `exportMethod(named:function:)` and
-- `exportProperty(named:getter:setter:)`, of a class and of an instance, and the static methods that
-- `export(type:className:)` of Engine.swift gives to each class. The static dictionaries are stored in
-- `JSExport` itself, so all of its subclasses have one.
use substrata_swift.Prelude.{ℕ, ◌≡◌, refl, sym, arith, List, [], ◌∷◌, ◌++◌, Bool, false}
use substrata_swift.Prelude.{Option, none, some, if◌then◌else◌, Bool-cases, inl, inr}
use substrata_swift.Str.{memcmp_equal}
use substrata_swift.Str.Parts.{memcmp_equal_iff}
use substrata_swift.Callbacks.{Function, returned, method_named}

-- A new entry of a dictionary; one that is there already stays.
unfoldable pub export_named : {V : Type 0} → List ℕ → V → List (List ℕ × V) → List (List ℕ × V)
export_named name v [] = (name, v) ∷ []
export_named name v ((other, w) ∷ entries) =
    if memcmp_equal other name
    then (other, w) ∷ entries
    else (other, w) ∷ export_named name v entries

-- `exportMethod` of an instance traps in a debug build when the name is there; `is_alive` tells
-- whether the instance is, to which the closure that is stored has a weak reference.
module _ {D P : Type 0} where
  unfoldable pub wrapped : (P → Bool) → Function D P → Function D P
  wrapped is_alive fn args p = if is_alive p then fn args p else (returned none, p)

  unfoldable pub export_instance_method :
      Bool
      → (P → Bool)
      → List ℕ
      → Function D P
      → List (List ℕ × Function D P)
      → Option (List (List ℕ × Function D P))
  unfolding export_named wrapped method_named
  export_instance_method debug is_alive name fn methods = elim (method_named methods name) [
    | none ↦ some (export_named name (wrapped is_alive fn) methods)
    | some old ↦ if debug then none else some methods
  ]

module _ {V : Type 0} where
  -- `staticInit`: the methods that it exports, one after the other.
  unfoldable pub static_init : List (List ℕ × V) → List (List ℕ × V) → List (List ℕ × V)
  unfolding export_named
  static_init [] shared = shared
  static_init ((name, v) ∷ entries) shared = static_init entries (export_named name v shared)

  -- The shared dictionary after the types were exported in turn.
  unfoldable pub shared_after : List (List (List ℕ × V)) → List (List ℕ × V) → List (List ℕ × V)
  unfolding static_init
  shared_after [] shared = shared
  shared_after (entries ∷ types) shared = shared_after types (static_init entries shared)

  abbrev pub concat : List (List (List ℕ × V)) → List (List ℕ × V)
  concat [] = []
  concat (entries ∷ types) = entries ++ concat types

module _ {V : Type 0} where
  method_named-other :
      (name other : List ℕ) (v : V) (shared : List (List ℕ × V))
      → memcmp_equal name other ≡ false
      → method_named (shared ++ (name, v) ∷ []) other ≡ method_named shared other
  unfolding method_named
  method_named-other name other v [] e = rw e refl
  method_named-other name other v ((n, w) ∷ shared) e =
      ground (arith, method_named-other name other v shared e)

  -- A search goes through the first list, and then through the second.
  abbrev or_else : Option V → Option V → Option V
  or_else none b = b
  or_else (some a) b = some a

  method_named-append :
      (name : List ℕ) (first second : List (List ℕ × V))
      → method_named (first ++ second) name
        ≡ or_else (method_named first name) (method_named second name)
  unfolding method_named
  method_named-append name [] second = refl
  method_named-append name ((n, w) ∷ first) second =
      ground (arith, method_named-append name first second)

  method_named-export_named :
      (name other : List ℕ) (v : V) (shared : List (List ℕ × V))
      → method_named (export_named name v shared) other
        ≡ method_named (shared ++ (name, v) ∷ []) other
  unfolding method_named export_named
  method_named-export_named name other v [] = refl
  method_named-export_named name other v ((n, w) ∷ shared) =
      elim (Bool-cases (memcmp_equal n name)) [
        | inl same ↦
            (let e = (memcmp_equal_iff n name).0 same in
              elim (Bool-cases (memcmp_equal n other)) [
                | inl hit ↦ rw (same, hit) refl
                | inr miss ↦
                    rw (same, miss) (sym (method_named-other name other v shared (rw e at miss)))
              ])
        | inr apart ↦ ground (arith, method_named-export_named name other v shared)
      ]

  method_named-static_init :
      (entries shared : List (List ℕ × V)) (name : List ℕ)
      → method_named (static_init entries shared) name
        ≡ or_else (method_named shared name) (method_named entries name)
  unfolding static_init method_named
  method_named-static_init [] shared name = ground arith
  method_named-static_init ((n, v) ∷ entries) shared name =
      rw
        (
          method_named-static_init entries (export_named n v shared) name,
          method_named-export_named n name v shared,
          method_named-append name shared ((n, v) ∷ []),
        )
        (ground arith)

  -- The static methods that a type has in JavaScript when others were exported before it: those of all
  -- of them, and of one name the first that any of them exported.
  pub method_named-shared_after :
      (types : List (List (List ℕ × V))) (shared : List (List ℕ × V)) (name : List ℕ)
      → method_named (shared_after types shared) name ≡ method_named (shared ++ concat types) name
  unfolding shared_after method_named
  method_named-shared_after [] shared name = rw (method_named-append name shared []) (ground arith)
  method_named-shared_after (entries ∷ types) shared name =
      rw
        (
          method_named-shared_after types (static_init entries shared) name,
          method_named-append name (static_init entries shared) (concat types),
          method_named-static_init entries shared name,
          method_named-append name shared (entries ++ concat types),
          method_named-append name entries (concat types),
        )
        (ground arith)
