-- ===== src/References/Convert.antt =====
-- The references that `toJSConvertible` takes and gives back: the `fromJSValue` of each type.
use substrata_swift.Prelude.{ℕ, ◌+◌, if◌then◌else◌, Option, some, []}
use substrata_swift.Prelude.{Bool, true, false}
use substrata_swift.Prelude.Int.{pos}
use substrata_swift.Conversion.{Floats, JsValue, JsValues, Properties, Native}
use substrata_swift.Conversion.{undefined, exception, null, string, bool, int32, float64}
use substrata_swift.Conversion.{date, array, function, error, instance_of, object, symbol}
use substrata_swift.Conversion.{end, item, no_more, property, number, int}
use substrata_swift.References.{Action, acquire, nothing, both, with_value, keep, dropped}

-- The objects that `Date.fromJSValue` looks at: the global object, and its property `Date`.
unfoldable pub date_test : Action
unfolding with_value nothing
date_test = with_value (with_value nothing)

-- `JSError.init(value:context:)` of an error whose fields are texts or missing: four properties, each
-- read and given back.
unfoldable pub read_error : Action
unfolding both with_value nothing
read_error =
    both (with_value nothing)
      (both (with_value nothing) (both (with_value nothing) (with_value nothing)))

-- `handlePossibleException` of such an exception.
unfoldable pub handle_exception : Action
unfolding with_value read_error
handle_exception = with_value read_error

-- `getFunctionName` and `getClassName` of a value that has a constructor.
unfoldable pub function_name : Action
unfolding with_value nothing
function_name = with_value nothing

unfoldable pub class_name : Action
unfolding with_value function_name
class_name = with_value function_name

-- `Array.fromJSValue` with the loop over its elements: the length is read first, and where it is no `Int`
-- the reference on it is not given back.
unfoldable pub read_array : Bool → Action → Action
unfolding with_value acquire
read_array is_int m l =
    if is_int then with_value m l else (let (t, l') = acquire l in some ([], l'))

module _ (f : Floats) where
  open f use {Double, of_int, is_finite}

  abbrev pub size : JsValues Double → ℕ
  size end = 0
  size (item v vs) = size vs + 1

  -- `toJSConvertible(…)?.typed(as: Int.self)` of the property `length`.
  unfoldable pub is_size : Option (Option (Native Double)) → Bool
  is_size (some (some (int n))) = true
  is_size _ = false

  unfoldable mutual
    unfolding nothing both with_value keep dropped date_test function_name class_name number is_size
        read_array

    -- `toJSConvertible`
    pub convert : JsValue Double → Action
    convert undefined = nothing
    convert (exception n m c s) = with_value (
        both (with_value (dropped (convert n))) (
          both (with_value (dropped (convert m)))
            (both (with_value (dropped (convert c))) (with_value (dropped (convert s))))))
    convert null = nothing
    convert (string s) = nothing
    convert (bool b) = nothing
    convert (int32 n) = nothing
    convert (float64 d) = nothing
    convert (date d r) = both date_test (if is_finite d then nothing else both keep class_name)
    convert (array vs) =
        both date_test (read_array (is_size (number f (of_int (pos (size vs))))) (convert_items vs))
    convert (function r) = both date_test (both keep function_name)
    convert (error n m c s) = both date_test (
        both (with_value (dropped (convert n))) (
          both (with_value (dropped (convert m)))
            (both (with_value (dropped (convert c))) (with_value (dropped (convert s))))))
    convert (instance_of r) = both date_test (both keep class_name)
    convert (object ps) = both date_test (both (with_value class_name) (convert_properties ps))
    convert symbol = nothing

    pub convert_items : JsValues Double → Action
    convert_items end = nothing
    convert_items (item v vs) = both (with_value (convert v)) (convert_items vs)

    -- `Dictionary.fromJSValue`
    pub convert_properties : Properties Double → Action
    convert_properties no_more = nothing
    convert_properties (property name v ps) = both (with_value (convert v)) (convert_properties ps)
