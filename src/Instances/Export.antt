-- ===== src/Instances/Export.antt =====
-- `export(instance:className:as:)`: the object of the script has the very instance that was exported.
use substrata_swift.Prelude.{ℕ, ◌≡◌, List, []}
use substrata_swift.Prelude.{Option, some, ◌>>=◌, find, Table}
use substrata_swift.Conversion.{Floats, JsValue}
use substrata_swift.Context.{Value}
use substrata_swift.Instances.{Objects, World, ClassInfo, ClassType, set_waiting}
use substrata_swift.Instances.Attached.{Laws, Tagged, Attached}
use substrata_swift.Instances.Made.{Made}

-- The order of a dictionary has no keys but those of the table.
abbrev pub IsOrder : (Table ClassInfo → Table ClassInfo) → Type 0
IsOrder order =
    (classes : Table ClassInfo) (k : ℕ) (info : ClassInfo)
    → find (order classes) k ≡ some info
    → (info' : ClassInfo) × (find classes k ≡ some info')

module _ (o : Objects) (class_of : Value → o.Heap → Option ℕ) (f : Floats) {P : Type 0} where
  -- What the script does: it calls the constructor of the identifier with no arguments, stores its
  -- result in a variable, which changes no object, and has it as its value.
  pub record IsNew
      (eval : (Value
          → ℕ
          → Option (List (JsValue f.Double))
          → World o f P
          → Option (JsValue f.Double × World o f P))
        → World o f P
        → Option (JsValue f.Double × World o f P))
      (k : ℕ) : Type 0 where
    pub this : Value
    pub bind : JsValue f.Double → o.Heap → o.Heap
    pub runs :
        (constructor : Value
          → ℕ
          → Option (List (JsValue f.Double))
          → World o f P
          → Option (JsValue f.Double × World o f P))
        (w : World o f P)
        → eval constructor w ≡ (
            constructor this k (some []) w >>= λ r.
            some (r.0, record r.1 { heap = bind r.0 r.1.heap }))
    pub kept :
        (r : JsValue f.Double) (h : o.Heap) (u j p : ℕ)
        → Tagged o class_of h u j p
        → Tagged o class_of (bind r h) u j p

module _ (o : Objects) (class_of : Value → o.Heap → Option ℕ) (laws : Laws o class_of) (f : Floats)
    {P : Type 0} (types : ℕ → ClassType f.Double P) (made : ℕ) where
  -- The world once the instance waits.
  abbrev ready_for : ℕ → ℕ → World o f P → World o f P
  ready_for k i w = set_waiting o f k (some i) w
