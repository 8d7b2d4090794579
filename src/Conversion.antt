-- ===== src/Conversion.antt =====
-- Values between Swift and JavaScript: Sources/Substrata/Internals/Conversion.swift and
-- `JSValue.toJSConvertible` of Utilities/Extensions.swift, with the number constructors of
-- Sources/SubstrataQuickJS/include/quickjs.h.
-- A value of JavaScript is what the C interface shows of it, by the first test of `toJSConvertible`
-- that it meets; references to functions, to dates and to objects of a class are numbers. An error and
-- an exception are the values that reading their name, message, cause and stack gives, inherited ones
-- among them. A string is the list of its Unicode scalars: one with a lone surrogate is no Swift string,
-- and has no value here. Entries of objects and dictionaries have distinct names up to a first zero, in
-- an order that says nothing; the value of an entry of an object is the one that is read under the name
-- up to its first zero, whatever the name goes on with. The outer `none` is a
-- trap of Swift, the inner one `nil`. That the handler of the context is called with an exception is
-- not recorded; in a debug build there is such a handler. The context is not shutting down, and values
-- do not contain themselves.
pub mod Clean
pub mod RoundTrip
pub mod Traps
pub mod Tests
use substrata_swift.Prelude.{ℕ, ◌^◌, ltb, ◌==◌, if◌then◌else◌, Bool, true, false}
use substrata_swift.Prelude.{Option, none, some, ◌>>=◌, List, [], ◌∷◌}
use substrata_swift.Prelude.Int.{ℤ, pos, negsuc, in_range}
use substrata_swift.Str.{string_of}

-- `JSError`: its name, message, cause and stack.
pub record JsError : Type 0 where
  pub name : Option (List ℕ)
  pub message : Option (List ℕ)
  pub cause : Option (List ℕ)
  pub stack : Option (List ℕ)

module _ (D : Type 0) where
  mutual
    pub data JsValue : Type 0 where
      undefined : JsValue
      exception : JsValue → JsValue → JsValue → JsValue → JsValue
      null : JsValue
      string : List ℕ → JsValue
      bool : Bool → JsValue
      int32 : ℤ → JsValue
      float64 : D → JsValue
      date : D → ℕ → JsValue
      array : JsValues → JsValue
      function : ℕ → JsValue
      error : JsValue → JsValue → JsValue → JsValue → JsValue
      instance_of : ℕ → JsValue
      object : Properties → JsValue
      symbol : JsValue

    pub data JsValues : Type 0 where
      end : JsValues
      item : JsValue → JsValues → JsValues

    pub data Properties : Type 0 where
      no_more : Properties
      property : List ℕ → JsValue → Properties → Properties

  -- The types that are `JSInternalConvertible`; `foreign` is a `JSConvertible` that is not, and `stray`
  -- a `JSFunction` or `JSClass` of another context, or of one that is gone.
  mutual
    pub data Native : Type 0 where
      ns_null : Native
      text : List ℕ → Native
      flag : Bool → Native
      int : ℤ → Native
      uint : ℕ → Native
      double : D → Native
      instant : D → Native
      list : Natives → Native
      js_function : ℕ → Native
      js_error : JsError → Native
      js_class : ℕ → Native
      dictionary : Entries → Native
      foreign : Native
      stray : Native

    pub data Natives : Type 0 where
      end : Natives
      item : Native → Natives → Natives

    pub data Entries : Type 0 where
      no_more : Entries
      entry : List ℕ → Native → Entries → Entries

-- What is used of `Double`: the nearest value of an integer, `truncatingRemainder(dividingBy: 1) == 0`,
-- `Int(d)`, which traps outside of 64 bits, `isFinite`, the product and quotient by 1000, and
-- `time_clip` of the engine, which keeps the whole milliseconds of a time. `shown` is the
-- `jsDescription` of a value that is no text, which the printing of Swift makes.
pub record Floats : Type 1 where
  pub Double : Type 0
  pub of_int : ℤ → Double
  pub is_integer : Double → Bool
  pub to_int : Double → Option ℤ
  pub is_finite : Double → Bool
  pub thousandfold : Double → Double
  pub thousandth : Double → Double
  pub time_clip : Double → Double
  pub shown : Native Double → List ℕ

-- "Error", which an error inherits as its name; its message is empty.
abbrev pub error_name : List ℕ
error_name = 69 ∷ 114 ∷ 114 ∷ 111 ∷ 114 ∷ []

-- A field that is set; a C string ends at its first zero. One that is `nil` is read as what the error
-- inherits.
unfoldable pub field_value : {D : Type 0} → JsValue D → Option (List ℕ) → JsValue D
field_value inherited none = inherited
field_value inherited (some s) = string (string_of s)

unfoldable pub error_value : {D : Type 0} → JsError → JsValue D
unfolding field_value
error_value e =
    error (field_value (string error_name) e.name) (field_value (string []) e.message)
      (field_value undefined e.cause) (field_value undefined e.stack)

-- `jsDescription` of a value: a text is itself.
unfoldable pub described : {D : Type 0} → (Native D → List ℕ) → Option (Native D) → Option (List ℕ)
described shown none = none
described shown (some (text s)) = some s
described shown (some n) = some (shown n)

module _ (f : Floats) where
  open f use {Double, of_int, is_integer, to_int, is_finite, thousandfold, thousandth, time_clip}
  open f use {shown}

  -- `JS_NewInt64` and `JS_NewUint32`
  unfoldable pub new_int64 : ℤ → JsValue Double
  new_int64 n = if in_range (2 ^ 31) n then int32 n else float64 (of_int n)

  unfoldable pub new_uint32 : ℕ → JsValue Double
  new_uint32 n = if ltb n (2 ^ 31) then int32 (pos n) else float64 (of_int (pos n))

  -- The branch of numbers in `toJSConvertible`.
  unfoldable pub number : Double → Option (Option (Native Double))
  number d =
      if is_integer d
      then elim (to_int d) [ none ↦ none | some n ↦ some (some (int n)) ]
      else some (some (double d))

  -- `JSError.init(value:context:)`, of the name, the message, the cause and the stack that were read.
  unfoldable pub error_of :
      Option (Native Double)
      → Option (Native Double)
      → Option (Native Double)
      → Option (Native Double)
      → JsError
  unfolding described
  error_of n m c s = record {
    name = described shown n;
    message = described shown m;
    cause = described shown c;
    stack = described shown s;
  }

  unfoldable mutual
    unfolding number error_of

    pub to_native : JsValue Double → Option (Option (Native Double))
    to_native undefined = some none
    to_native (exception name message cause stack) = to_native name >>= λ n.
        to_native message >>= λ m.
        to_native cause >>= λ c. to_native stack >>= λ s. some (some (js_error (error_of n m c s)))
    to_native null = some (some ns_null)
    to_native (string s) = some (some (text (string_of s)))
    to_native (bool b) = some (some (flag b))
    to_native (int32 n) = number (of_int n)
    to_native (float64 d) = number d
    to_native (date d r) =
        if is_finite d then some (some (instant (thousandth d))) else some (some (js_class r))
    to_native (array vs) = to_natives vs >>= λ ns. some (some (list ns))
    to_native (function r) = some (some (js_function r))
    to_native (error name message cause stack) = to_native name >>= λ n. to_native message >>= λ m.
        to_native cause >>= λ c. to_native stack >>= λ s. some (some (js_error (error_of n m c s)))
    to_native (instance_of r) = some (some (js_class r))
    to_native (object ps) = to_entries ps >>= λ es. some (some (dictionary es))
    to_native symbol = some none

    pub to_natives : JsValues Double → Option (Natives Double)
    to_natives end = some end
    to_natives (item v vs) = to_native v >>= λ n.
        to_natives vs >>= λ ns. some (item (elim n [ none ↦ ns_null | some m ↦ m ]) ns)

    pub to_entries : Properties Double → Option (Entries Double)
    to_entries no_more = some no_more
    to_entries (property name v ps) = to_native v >>= λ n.
        to_entries ps >>= λ es. some (elim n [ none ↦ es | some m ↦ entry (string_of name) m es ])

  -- `toJSValue`; `made` is the reference of a date object that `JS_NewDate` makes.
  module _ (made : ℕ) where
    unfoldable mutual
      unfolding new_int64 new_uint32 error_value field_value

      pub to_js : Native Double → Option (Option (JsValue Double))
      to_js ns_null = some (some null)
      to_js (text s) = some (some (string (string_of s)))
      to_js (flag b) = some (some (bool b))
      to_js (int n) = some (some (new_int64 n))
      to_js (uint n) = if ltb n (2 ^ 32) then some (some (new_uint32 n)) else none
      to_js (double d) = some (some (float64 d))
      to_js (instant d) = some (some (date (time_clip (thousandfold d)) made))
      to_js (list ns) = to_js_items ns >>= λ vs. some (some (array vs))
      to_js (js_function r) = some (some (function r))
      to_js (js_error e) = some (some (error_value e))
      to_js (js_class r) = some (some (instance_of r))
      to_js (dictionary es) = to_js_properties es >>= λ ps. some (some (object ps))
      to_js foreign = some none
      to_js stray = some none

      -- An element that is not convertible is `undefined`.
      pub to_js_items : Natives Double → Option (JsValues Double)
      to_js_items end = some end
      to_js_items (item n ns) = to_js n >>= λ v.
          to_js_items ns >>= λ vs. some (item (elim v [ none ↦ undefined | some w ↦ w ]) vs)

      -- An entry that is not convertible is left out.
      pub to_js_properties : Entries Double → Option (Properties Double)
      to_js_properties no_more = some no_more
      to_js_properties (entry name n es) = to_js n >>= λ v. to_js_properties es >>= λ ps.
          some (elim v [ none ↦ ps | some w ↦ property (string_of name) w ps ])
