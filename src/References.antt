-- ===== src/References.antt =====
-- The references to values of the engine that the Swift layer holds: what `toJSConvertible` and
-- `toJSValue` of Sources/Substrata/Internals/Conversion.swift and Utilities/Extensions.swift take and
-- give back, with the calls of `JSFunction` and `JSClass` and `evaluate` and `setValue` of Engine.swift.
-- Each reference that a call of the engine hands over has a number of its own. `JS_FreeValue` and the
-- calls that store a value end it; `none` is a reference that is given back twice. The values of the
-- engine are those of Conversion, and no conversion traps. Atoms and C strings, which are not counted
-- references, have no part in it. The context is not shutting down.
pub mod Balanced
pub mod Convert
pub mod Build
pub mod Calls
pub mod Kept
pub mod Results
pub mod Held
pub mod Taken
pub mod Arguments
pub mod Handles
mod Tests
use substrata_swift.Prelude.{
  ℕ, ◌+◌, ◌^◌, ◌==◌, ltb, if◌then◌else◌, Option, none, some, ◌>>=◌, List, [], ◌∷◌,
}
use substrata_swift.Prelude.{◌++◌, ◌&&◌, Bool, true, false}
use substrata_swift.Prelude.Int.{ℤ, pos}
use substrata_swift.Conversion.{Floats, JsValue, JsValues, Properties, Native, Natives, Entries}
use substrata_swift.Conversion.{JsError, undefined, exception, null, string, bool, int32, float64}
use substrata_swift.Conversion.{date, array, function, error, instance_of, object, symbol}
use substrata_swift.Conversion.{end, item, no_more, property, entry, number, int}
use substrata_swift.Conversion.{ns_null, text, flag, uint, double, instant, list, js_function}
use substrata_swift.Conversion.{js_error, js_class, dictionary, foreign}

-- The number of the next reference, and those that are held.
pub record Ledger : Type 0 where
  pub next : ℕ
  pub held : List ℕ

unfoldable pub acquire : Ledger → ℕ × Ledger
acquire l = (l.next, record { next = l.next + 1; held = l.next ∷ l.held })

unfoldable pub remove : ℕ → List ℕ → Option (List ℕ)
remove t [] = none
remove t (u ∷ us) = if u == t then some us else (remove t us >>= λ r. some (u ∷ r))

-- `JS_FreeValue`, and the calls that take over the reference of their argument.
unfoldable pub free_reference : ℕ → Ledger → Option Ledger
unfolding remove
free_reference t l = remove t l.held >>= λ us. some (record l { held = us })

-- What an operation leaves held on purpose: the references of the `JSFunction` and `JSClass` that it
-- made, which their `deinit` gives back.
abbrev pub Action : Type 0
Action = Ledger → Option (List ℕ × Ledger)

unfoldable pub nothing : Action
nothing l = some ([], l)

-- One operation and then another.
unfoldable pub both : Action → Action → Action
both m m' l = do (hs, l') ← m l; (hs', l'') ← m' l'; some (hs' ++ hs, l'')

-- `let v = …; …; v.free(context)`
unfoldable pub with_value : Action → Action
unfolding acquire free_reference
with_value m l =
    let (t, l1) = acquire l in do (hs, l2) ← m l1; l3 ← free_reference t l2; some (hs, l3)

-- `JS_DupValue` of an object that keeps it.
unfoldable pub keep : Action
unfolding acquire
keep l = let (t, l') = acquire l in some (t ∷ [], l')

-- The handles of a value that is dropped: their `deinit` gives back what they hold.
unfoldable pub give_back_all : List ℕ → Ledger → Option Ledger
unfolding free_reference
give_back_all [] l = some l
give_back_all (t ∷ ts) l = free_reference t l >>= λ l'. give_back_all ts l'

-- The value is read and then dropped.
unfoldable pub dropped : Action → Action
unfolding give_back_all
dropped m l = do (hs, l1) ← m l; l2 ← give_back_all hs l1; some ([], l2)
