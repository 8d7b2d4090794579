-- ===== src/KeyPath.antt =====
-- Key paths: `JSEngine.value(for:)` and `setValue(_:for:)` of Sources/Substrata/Engine.swift, up to what
-- they give to the C engine, and the data bridge of Sources/Substrata/DataBridge.swift, which puts its
-- own name in front.
-- A string is the list of its code points, none of which is a combining mark: Swift compares whole
-- characters.
pub mod Parts
pub mod Bridge
mod Tests
use substrata_swift.Prelude.{
  ℕ, ◌==◌, if◌then◌else◌, Bool, true, false, Option, none, some, List, [], ◌∷◌,
}
use substrata_swift.Prelude.{◌++◌}

abbrev pub Str : Type 0
Str = List ℕ

-- "."
abbrev pub dot : ℕ
dot = 46

-- `components(separatedBy: ".")`: the first component and those after it, of which there may be none.
unfoldable pub components : Str → Str × List Str
components [] = ([], [])
components (c ∷ path) =
    let (first, rest) = components path in
    if c == dot then ([], first ∷ rest) else (c ∷ first, rest)

-- `last` and the components after `removeLast()`
unfoldable pub remove_last : Str → List Str → List Str × Str
remove_last first [] = ([], first)
remove_last first (next ∷ rest) =
    let (before, last) = remove_last next rest in (first ∷ before, last)

-- `joined(separator: ".")`
unfoldable pub joined : List Str → Str
joined [] = []
joined (part ∷ []) = part
joined (part ∷ next ∷ rest) = part ++ (dot ∷ joined (next ∷ rest))

-- The object whose property is set: the global object, or what a script evaluates to.
pub data Target : Type 0 where
  global : Target
  evaluated : Str → Target

unfoldable pub target : Str → Target
target [] = global
target (c ∷ path) = evaluated (c ∷ path)

-- `setValue`: the object and the name of its property, and `none` where it returns at once.
unfoldable pub set_value : Str → Option (Target × Str)
set_value [] = none
set_value (c ∷ path) =
    let (first, rest) = components (c ∷ path) in
    let (before, last) = remove_last first rest in some (target (joined before), last)

-- `value(for:)`: the script that is evaluated.
unfoldable pub value : Str → Option Str
value [] = none
value (c ∷ path) = some (c ∷ path)

-- "dataBridge"
abbrev pub bridge_key : Str
bridge_key = 100 ∷ 97 ∷ 116 ∷ 97 ∷ 66 ∷ 114 ∷ 105 ∷ 100 ∷ 103 ∷ 101 ∷ []

-- `"\(Self.dataBridgeKey).\(keyPath)"`
unfoldable pub bridge_path : Str → Str
bridge_path path = bridge_key ++ (dot ∷ path)

-- The two accessors of the bridge; `attached` is false where it has no engine.
unfoldable pub bridge_value : Bool → Str → Option Str
unfolding bridge_path
bridge_value attached path = if attached then value (bridge_path path) else none

unfoldable pub bridge_set_value : Bool → Str → Option (Target × Str)
unfolding bridge_path
bridge_set_value attached path = if attached then set_value (bridge_path path) else none
