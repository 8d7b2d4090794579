-- ===== src/References/Tests.antt =====
-- The theorems on references at a list with a function in it.
use substrata_swift.Prelude.{ℕ, ◌≡◌, arith, refl, some, ◌>>=◌, List, [], ◌∷◌, ◌++◌}
use substrata_swift.Prelude.Int.{pos}
use substrata_swift.Conversion.{
  JsValue, Native, js_function, number, array, item, end, function, int32, int, list, text,
}
use substrata_swift.Conversion.Tests.{halves, halves-IsExact, Halves}
use substrata_swift.References.{Ledger, free_reference}
use substrata_swift.References.Balanced.{Balanced}
use substrata_swift.References.Kept.{IsSized}
use substrata_swift.References.Calls.{evaluate, call_function, class_value}
use substrata_swift.Prelude.{Option, length}
use substrata_swift.Conversion.{to_native}
use substrata_swift.References.Results.{handles, result_handles}
use substrata_swift.References.Handles.{call_result}
use substrata_swift.References.Handles.{evaluate-IsBalanced, call_function-IsBalanced}
use substrata_swift.References.Handles.{class_value-leaks}

abbrev result : JsValue Halves
result = array (item (int32 (pos 5)) (item (function 9) end))

result-IsSized : IsSized halves result
unfolding IsSized
result-IsSized = (omega arith, (tt, (tt, tt)))

abbrev ledger : Ledger
ledger = record { next = 4; held = 2 ∷ [] }

evaluate-IsBalanced_example :
    (hs : List ℕ) × (l' : Ledger) × (evaluate halves result ledger ≡ some (hs, l'))
    × Balanced ledger hs l'
    × ((n : Option (Native Halves))
        → to_native halves result ≡ some n
        → length hs ≡ result_handles n)
evaluate-IsBalanced_example = evaluate-IsBalanced halves halves-IsExact result result-IsSized ledger

abbrev args : List (Native Halves)
args = list (item (text (97 ∷ [])) end) ∷ int (pos 1) ∷ []

call_function-IsBalanced_example :
    (hs : List ℕ) × (l' : Ledger) × (call_function halves (some args) result ledger ≡ some (hs, l'))
    × Balanced ledger hs l'
    × ((n : Option (Native Halves))
        → call_result halves halves-IsExact (some args) result ≡ some n
        → length hs ≡ result_handles n)
call_function-IsBalanced_example =
    call_function-IsBalanced halves halves-IsExact (some args) result result-IsSized ledger

class_value-leaks_example :
    (hs : List ℕ) × (l' : Ledger) × (class_value halves result ledger ≡ some (hs, l'))
    × (l'.held ≡ hs ++ 4 ∷ 2 ∷ [])
    × (evaluate halves result ledger ≡ (free_reference 4 l' >>= λ l''. some (hs, l'')))
class_value-leaks_example = class_value-leaks halves halves-IsExact result ledger result-IsSized

-- One function is in the result, and one reference is held for it.
one_handle : (n : Option (Native Halves)) → to_native halves result ≡ some n → result_handles n ≡ 1
unfolding to_native number result_handles handles
one_handle n h =
    let same : some (list (item (int (pos 5)) (item (js_function 9) end))) ≡ n =
      ground (arith, h) in
    rw (← same) refl
