-- ===== src/References/Handles.antt =====
-- Evaluations, calls and properties with the references that they hold in the end.
use substrata_swift.Prelude.{ℕ, ◌≡◌, refl, arith, if◌then◌else◌, Option, none, some, true}
use substrata_swift.Prelude.{◌>>=◌, List, [], ◌∷◌, ◌++◌, length, Bool-cases, inl, inr}
use substrata_swift.Conversion.{Floats, JsValue, Native, to_native}
use substrata_swift.Conversion.Clean.{IsExact}
use substrata_swift.References.{Ledger, Action, acquire, free_reference, with_value}
use substrata_swift.References.Balanced.{Balanced}
use substrata_swift.References.Balanced.{free_reference-Balanced}
use substrata_swift.References.Results.{result_handles}
use substrata_swift.References.Held.{length-convert}
use substrata_swift.References.Build.{are_internal}
use substrata_swift.References.Kept.{IsSized, convert-IsBalanced}
use substrata_swift.References.Taken.{IsNeutral, give-Balanced, build-Makes}
use substrata_swift.References.Arguments.{build_args-Prepared, give_back}
use substrata_swift.References.Calls.{evaluate, call_function, class_value}
use substrata_swift.References.Calls.{class_set_value}

module _ (f : Floats) (law : IsExact f) where
  -- The action gives nothing back twice, and leaves new references alone, one for each function and each
  -- object of a class in the result, where the result is what is said.
  abbrev pub Holds : Option (Option (Native f.Double)) → Action → Type 0
  Holds result m =
      (l : Ledger)
      → (hs : List ℕ) × (l' : Ledger) × (m l ≡ some (hs, l'))
        × Balanced l hs l'
        × ((n : Option (Native f.Double)) → result ≡ some n → length hs ≡ result_handles n)

  -- `evaluate` gives no reference back twice, and holds in the end, beside what was held before, one new
  -- reference for each function and each object of a class in its result, where arrays have fewer than
  -- 2^32 elements.
  pub evaluate-IsBalanced :
      (v : JsValue f.Double) → IsSized f v → Holds (to_native f v) (evaluate f v)
  unfolding evaluate with_value
  evaluate-IsBalanced v h l =
      let (hs, l1, e, inner) = convert-IsBalanced f law v h (acquire l).1 in
      let (l2, e', outer) = free_reference-Balanced l l1 hs inner in
      (
        hs,
        l2,
        rw (e, e') refl,
        outer,
        λ n came. length-convert f law v n (acquire l).1 l1 hs h e came,
      )

  call_args-Balanced :
      (args : List (Native f.Double)) (v : JsValue f.Double)
      → IsSized f v
      → are_internal args ≡ true
      → Holds (to_native f v) (call_function f (some args) v)
  unfolding call_function acquire
  call_args-Balanced args v h internal l =
      let (ts, l1, e1, made) = build_args-Prepared args l in
      let (hs, l3, e3, b) = convert-IsBalanced f law v h (acquire l1).1 in
      let (l4, l5, e4, e5, done) = give_back l l1 l3 ts hs made b in
      (
        hs,
        l5,
        rw (internal, e1, e3, e4, e5) refl,
        done,
        λ n came. length-convert f law v n (acquire l1).1 l3 hs h e3 came,
      )

  -- What a call returns: `nil` when an argument is not convertible.
  abbrev pub call_result :
      Option (List (Native f.Double)) → JsValue f.Double → Option (Option (Native f.Double))
  call_result none v = to_native f v
  call_result (some args) v = if are_internal args then to_native f v else some none

  -- `JSFunction.call` gives nothing back twice, and holds in the end, beside what was held before, one new
  -- reference for each function and each object of a class in its result: the references of the
  -- arguments and of the result are given back, and none is taken when an argument is not convertible;
  -- arrays in the result have fewer than 2^32 elements.
  pub call_function-IsBalanced :
      (args : Option (List (Native f.Double))) (v : JsValue f.Double)
      → IsSized f v
      → Holds (call_result args v) (call_function f args v)
  unfolding call_function result_handles
  call_function-IsBalanced none v h l = evaluate-IsBalanced v h l
  call_function-IsBalanced (some args) v h l = elim (Bool-cases (are_internal args)) [
    | inl internal ↦
        (let (hs, l', e, b, count) = call_args-Balanced args v h internal l in
          rw internal (hs, l', rw internal at e, b, count))
    | inr strange ↦ rw strange (
      [],
      l,
      refl,
      record { held = refl; fresh = tt; grows = omega arith },
      λ n came. nothing_held n came,
    )
  ]
    where
      nothing_held : (n : Option (Native f.Double)) → some none ≡ some n → 0 ≡ result_handles n
      nothing_held n came = let same : none ≡ n = ground (arith, came) in rw (← same) refl

  -- `JSClass.value(for:)`, on a value whose arrays have fewer than 2^32 elements, holds in the end, beside
  -- the handles of its result, the reference on the value of the property; `evaluate` of the same value
  -- gives that reference back and does nothing else differently.
  pub class_value-leaks :
      (v : JsValue f.Double) (l : Ledger)
      → IsSized f v
      → (hs : List ℕ) × (l' : Ledger) × (class_value f v l ≡ some (hs, l'))
        × (l'.held ≡ hs ++ l.next ∷ l.held)
        × (evaluate f v l ≡ (free_reference l.next l' >>= λ l''. some (hs, l'')))
  unfolding class_value acquire evaluate with_value
  class_value-leaks v l h =
      let (hs, l', e, b) = convert-IsBalanced f law v h (acquire l).1 in
      (hs, l', e, b.held, rw e refl)

  -- `JSClass.setValue(_:for:)` holds nothing more in the end.
  class_set_value-IsNeutral : (n : Native f.Double) → IsNeutral (class_set_value f n)
  unfolding class_set_value
  class_set_value-IsNeutral n l =
      let (v, l1, e, made) = build-Makes n l in
      let (l2, e', given) = give-Balanced l l1 v made in (l2, rw (e, e') refl, given)
