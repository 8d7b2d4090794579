-- ===== src/References/Kept.antt =====
-- Conversions into Swift hold in the end only what their results need: the handles of functions and
-- objects.
use substrata_swift.Prelude.{ℕ, ◌^◌, ◌<◌, ◌≡◌, refl, arith, if◌then◌else◌, Bool, true, false}
use substrata_swift.Prelude.Int.{pos, magnitude}
use substrata_swift.Conversion.Clean.{IsExact}
use substrata_swift.Conversion.{Floats, JsValue, JsValues, Properties}
use substrata_swift.Conversion.{undefined, exception, null, string, bool, int32, float64}
use substrata_swift.Conversion.{date, array, function, error, instance_of, object, symbol}
use substrata_swift.Conversion.{end, item, no_more, property, number}
use substrata_swift.References.{Action, nothing, both, with_value, keep, dropped}
use substrata_swift.References.Balanced.{IsBalanced, nothing-IsBalanced}
use substrata_swift.References.Balanced.{keep-IsBalanced, both-IsBalanced, with_value-IsBalanced}
use substrata_swift.References.Balanced.{IsQuiet, nothing-IsQuiet, both-IsQuiet, with_value-IsQuiet}
use substrata_swift.References.Balanced.{IsQuiet-IsBalanced, dropped-IsQuiet}
use substrata_swift.References.Convert.{convert, convert_items, convert_properties, date_test}
use substrata_swift.References.Convert.{read_error, handle_exception, function_name, class_name}
use substrata_swift.References.Convert.{size, is_size, read_array}

date_test-IsBalanced : IsBalanced date_test
unfolding date_test
date_test-IsBalanced =
    with_value-IsBalanced (with_value nothing) (with_value-IsBalanced nothing nothing-IsBalanced)

function_name-IsBalanced : IsBalanced function_name
unfolding function_name
function_name-IsBalanced = with_value-IsBalanced nothing nothing-IsBalanced

class_name-IsBalanced : IsBalanced class_name
unfolding class_name
class_name-IsBalanced = with_value-IsBalanced function_name function_name-IsBalanced

read_error-IsQuiet : IsQuiet read_error
unfolding read_error
read_error-IsQuiet =
    let one = with_value-IsQuiet nothing nothing-IsQuiet in
    let read = with_value nothing in
    both-IsQuiet read (both read (both read read)) one
      (both-IsQuiet read (both read read) one (both-IsQuiet read read one one))

pub handle_exception-IsQuiet : IsQuiet handle_exception
unfolding handle_exception
handle_exception-IsQuiet = with_value-IsQuiet read_error read_error-IsQuiet

-- The four fields of an error.
abbrev pub fields : Action → Action → Action → Action → Action
fields n m c s =
    both (with_value (dropped n))
      (both (with_value (dropped m)) (both (with_value (dropped c)) (with_value (dropped s))))

fields-IsBalanced :
    (n m c s : Action)
    → IsBalanced n
    → IsBalanced m
    → IsBalanced c
    → IsBalanced s
    → IsBalanced (fields n m c s)
fields-IsBalanced n m c s bn bm bc bs =
    let one =
      λ (a : Action) (b : IsBalanced a). with_value-IsQuiet (dropped a) (dropped-IsQuiet a b) in
    IsQuiet-IsBalanced (fields n m c s) (
      both-IsQuiet (with_value (dropped n))
        (both (with_value (dropped m)) (both (with_value (dropped c)) (with_value (dropped s))))
        (one n bn)
        (both-IsQuiet (with_value (dropped m))
          (both (with_value (dropped c)) (with_value (dropped s))) (one m bm)
          (both-IsQuiet (with_value (dropped c)) (with_value (dropped s)) (one c bc) (one s bs))))

read_array-IsBalanced : (m : Action) → IsBalanced m → IsBalanced (read_array true m)
unfolding read_array
read_array-IsBalanced m b = with_value-IsBalanced m b

either-IsBalanced :
    (b : Bool) (m m' : Action) → IsBalanced m → IsBalanced m' → IsBalanced (if b then m else m')
either-IsBalanced true m m' h h' = h
either-IsBalanced false m m' h h' = h'

module _ (f : Floats) where
  -- Every array has fewer than 2^32 elements.
  unfoldable mutual
    pub IsSized : JsValue f.Double → Type 0
    IsSized (array vs) = (size f vs < 2 ^ 32) × AreSized vs
    IsSized (object ps) = HasSized ps
    IsSized undefined = Unit
    IsSized (exception n m c s) = IsSized n × IsSized m × IsSized c × IsSized s
    IsSized null = Unit
    IsSized (string s) = Unit
    IsSized (bool b) = Unit
    IsSized (int32 n) = Unit
    IsSized (float64 d) = Unit
    IsSized (date d r) = Unit
    IsSized (function r) = Unit
    IsSized (error n m c s) = IsSized n × IsSized m × IsSized c × IsSized s
    IsSized (instance_of r) = Unit
    IsSized symbol = Unit

    pub AreSized : JsValues f.Double → Type 0
    AreSized end = Unit
    AreSized (item v vs) = IsSized v × AreSized vs

    pub HasSized : Properties f.Double → Type 0
    HasSized no_more = Unit
    HasSized (property name v ps) = IsSized v × HasSized ps

  pub length-is_size :
      IsExact f → (n : ℕ) → n < 2 ^ 32 → is_size f (number f (f.of_int (pos n))) ≡ true
  unfolding number is_size
  length-is_size law n l =
      let small : magnitude (pos n) < 2 ^ 53 = omega (arith, l) in
      rw (law.whole (pos n) small, law.back (pos n) small) refl

module _ (f : Floats) (law : IsExact f) where
  mutual
    unfolding convert convert_items convert_properties IsSized AreSized HasSized

    -- `toJSConvertible` gives nothing back twice, and holds in the end one reference for each function
    -- and object of a class in its result, where lengths of arrays are whole numbers.
    pub convert-IsBalanced : (v : JsValue f.Double) → IsSized f v → IsBalanced (convert f v)
    convert-IsBalanced undefined h = nothing-IsBalanced
    convert-IsBalanced (exception n m c s) h =
        with_value-IsBalanced (fields (convert f n) (convert f m) (convert f c) (convert f s)) (
          fields-IsBalanced (convert f n) (convert f m) (convert f c) (convert f s)
            (convert-IsBalanced n h.0) (convert-IsBalanced m h.1) (convert-IsBalanced c h.2)
            (convert-IsBalanced s h.3))
    convert-IsBalanced null h = nothing-IsBalanced
    convert-IsBalanced (string s) h = nothing-IsBalanced
    convert-IsBalanced (bool b) h = nothing-IsBalanced
    convert-IsBalanced (int32 n) h = nothing-IsBalanced
    convert-IsBalanced (float64 d) h = nothing-IsBalanced
    convert-IsBalanced (date d r) h =
        both-IsBalanced date_test (if f.is_finite d then nothing else both keep class_name)
          date_test-IsBalanced
          (either-IsBalanced (f.is_finite d) nothing (both keep class_name) nothing-IsBalanced
            (both-IsBalanced keep class_name keep-IsBalanced class_name-IsBalanced))
    convert-IsBalanced (array vs) h = rw (length-is_size f law (size f vs) h.0) (
        both-IsBalanced date_test (read_array true (convert_items f vs)) date_test-IsBalanced
          (read_array-IsBalanced (convert_items f vs) (convert_items-IsBalanced vs h.1)))
    convert-IsBalanced (function r) h =
        both-IsBalanced date_test (both keep function_name) date_test-IsBalanced
          (both-IsBalanced keep function_name keep-IsBalanced function_name-IsBalanced)
    convert-IsBalanced (error n m c s) h =
        both-IsBalanced date_test (fields (convert f n) (convert f m) (convert f c) (convert f s))
          date_test-IsBalanced
          (fields-IsBalanced (convert f n) (convert f m) (convert f c) (convert f s)
            (convert-IsBalanced n h.0) (convert-IsBalanced m h.1) (convert-IsBalanced c h.2)
            (convert-IsBalanced s h.3))
    convert-IsBalanced (instance_of r) h =
        both-IsBalanced date_test (both keep class_name) date_test-IsBalanced
          (both-IsBalanced keep class_name keep-IsBalanced class_name-IsBalanced)
    convert-IsBalanced (object ps) h =
        both-IsBalanced date_test (both (with_value class_name) (convert_properties f ps))
          date_test-IsBalanced
          (both-IsBalanced (with_value class_name) (convert_properties f ps)
            (with_value-IsBalanced class_name class_name-IsBalanced)
            (convert_properties-IsBalanced ps h))
    convert-IsBalanced symbol h = nothing-IsBalanced

    convert_items-IsBalanced :
        (vs : JsValues f.Double) → AreSized f vs → IsBalanced (convert_items f vs)
    convert_items-IsBalanced end h = nothing-IsBalanced
    convert_items-IsBalanced (item v vs) h =
        both-IsBalanced (with_value (convert f v)) (convert_items f vs)
          (with_value-IsBalanced (convert f v) (convert-IsBalanced v h.0))
          (convert_items-IsBalanced vs h.1)

    convert_properties-IsBalanced :
        (ps : Properties f.Double) → HasSized f ps → IsBalanced (convert_properties f ps)
    convert_properties-IsBalanced no_more h = nothing-IsBalanced
    convert_properties-IsBalanced (property name v ps) h =
        both-IsBalanced (with_value (convert f v)) (convert_properties f ps)
          (with_value-IsBalanced (convert f v) (convert-IsBalanced v h.0))
          (convert_properties-IsBalanced ps h.1)
