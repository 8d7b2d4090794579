-- ===== src/Conversion/Tests.antt =====
-- Runs of the conversions, and their theorems at concrete values.
use substrata_swift.Prelude.{◌*◌, ◌/◌, ◌^◌, ◌≡◌, refl, arith, Bool, true, false, none, some}
use substrata_swift.Prelude.{if◌then◌else◌, [], ◌∷◌, ◌↔◌}
use substrata_swift.Prelude.Int.{ℤ, pos, negsuc, in_range}
use substrata_swift.Conversion.{Floats, JsValue, Native, to_native, to_js}
use substrata_swift.Conversion.{
  float64, array, int, uint, double, instant, js_error, error, string, undefined, list, dictionary,
  item, end,
}
use substrata_swift.Conversion.{entry, no_more}
use substrata_swift.Conversion.Clean.{IsExact}
use substrata_swift.Conversion.Traps.{holds_wide, to_js-none_iff}

-- Numbers that are whole, or the half behind one.
pub data Halves : Type 0 where
  whole half : ℤ → Halves

abbrev pub times : ℤ → ℤ
times (pos n) = pos (n * 1000)
times (negsuc n) = negsuc (n * 1000)

abbrev pub over : ℤ → ℤ
over (pos n) = pos (n / 1000)
over (negsuc n) = negsuc (n / 1000)

abbrev pub is_whole : Halves → Bool
is_whole (whole n) = true
is_whole (half n) = false

abbrev pub value_of : Halves → ℤ
value_of (whole n) = n
value_of (half n) = n

-- A stand-in for `Double`, exact on all integers.
abbrev pub halves : Floats
halves = record {
  Double = Halves;
  of_int = whole;
  is_integer = is_whole;
  to_int = λ d. if in_range (2 ^ 63) (value_of d) then some (value_of d) else none;
  is_finite = λ d. true;
  thousandfold = λ d. whole (times (value_of d));
  thousandth = λ d. whole (over (value_of d));
  time_clip = λ d. whole (value_of d);
  shown = λ n. 111 ∷ [];
}

pub halves-IsExact : IsExact halves
halves-IsExact = record { whole = λ n h. refl; back = λ n h. ground arith }

-- An error with a name, an empty message and a cause, and a date of two whole seconds.
abbrev failure : Native Halves
failure =
    js_error
      (record { name = some (88 ∷ []); message = some []; cause = some (98 ∷ []); stack = none })

abbrev moment : Native Halves
moment = instant (whole (pos 2))

-- `["a": [1.5, -3, error, date]]`
abbrev sample : Native Halves
sample = dictionary (
    entry (97 ∷ [])
      (list (item (double (half (pos 1))) (item (int (negsuc 2)) (item failure (item moment end)))))
      no_more)

-- An error whose cause is `[1e19]`.
abbrev huge : JsValue Halves
huge = error (string []) (string []) (array (item (float64 (whole (pos (10 ^ 19)))) end)) undefined

huge_traps : to_native halves huge ≡ none
unfolding to_native
huge_traps = refl

abbrev wide : Native Halves
wide = list (item (uint (2 ^ 32)) end)

to_js-none_iff_example : (to_js halves 0 wide ≡ none) ↔ (holds_wide halves wide ≡ true)
to_js-none_iff_example = to_js-none_iff halves 0 wide
