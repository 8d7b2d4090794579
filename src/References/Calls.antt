-- ===== src/References/Calls.antt =====
-- `evaluate`, calls of functions, and properties of objects, with the references that they hold.
use substrata_swift.Prelude.{ℕ, if◌then◌else◌, Option, none, some, ◌>>=◌, List, [], ◌∷◌}
use substrata_swift.Prelude.{Bool}
use substrata_swift.Conversion.{Floats, JsValue, Native}
use substrata_swift.References.{Ledger, Action, acquire, free_reference, with_value}
use substrata_swift.References.Convert.{convert, handle_exception}
use substrata_swift.References.Build.{build, build_args, are_internal, give}

unfoldable pub release_all : List ℕ → Ledger → Option Ledger
unfolding free_reference
release_all [] l = some l
release_all (t ∷ ts) l = free_reference t l >>= λ l'. release_all ts l'

module _ (f : Floats) where
  open f use {Double}

  -- `evaluate(script:evaluator:)`, where the script has the value; so does `JSFunction.call` without
  -- arguments, and `populateMethodsIfNecessary`.
  unfoldable pub evaluate : JsValue Double → Action
  unfolding with_value convert
  evaluate v = with_value (convert f v)

  -- `JSFunction.call`, where the function returns the value.
  unfoldable pub call_function : Option (List (Native Double)) → JsValue Double → Action
  unfolding evaluate are_internal build_args acquire release_all free_reference convert
  call_function none v l = evaluate v l
  call_function (some args) v l =
      if are_internal args
      then (do
        (ts, l1) ← build_args args l
        let (t, l2) = acquire l1 in
            do
              (hs, l3) ← convert f v l2
              l4 ← release_all ts l3
              l5 ← free_reference t l4
              some (hs, l5))
      else some ([], l)

  -- `JSClass.value(for:)`, where the property has the value.
  unfoldable pub class_value : JsValue Double → Action
  unfolding acquire convert
  class_value v l = let (t, l') = acquire l in convert f v l'

  -- `JSClass.setValue(_:for:)`
  unfoldable pub class_set_value : Native Double → Ledger → Option Ledger
  unfolding build give
  class_set_value n l = build n l >>= λ r. give r.0 r.1

  -- `JSEngine.setValue(_:for:)` by a path, where the script of the path throws or does not.
  unfoldable pub set_by_path : Option Bool → Native Double → Ledger → Option Ledger
  unfolding build give acquire free_reference handle_exception
  set_by_path none n l = build n l >>= λ r. give r.0 r.1
  set_by_path (some throws) n l = build n l >>= λ r.
      let (t, l1) = acquire r.1 in
      do
        (hs, l2) ← if throws then handle_exception l1 else some ([], l1)
        l3 ← give r.0 l2
        free_reference t l3
