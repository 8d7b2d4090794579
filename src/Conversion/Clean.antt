-- ===== src/Conversion/Clean.antt =====
-- The Swift values that come back from JavaScript as they went.
use substrata_swift.Prelude.{ℕ, ◌^◌, ◌<◌, ◌≡◌, true, false, Option, none, some, List}
use substrata_swift.Prelude.Int.{ℤ, magnitude}
use substrata_swift.Str.{string_of}
use substrata_swift.Conversion.{Floats, Native, Natives, Entries}
use substrata_swift.Conversion.{ns_null, text, flag, int, uint, double, instant, list, js_function}
use substrata_swift.Conversion.{
  js_error, js_class, dictionary, foreign, stray, item, end, entry, no_more,
}

-- What IEEE 754 promises of integers of up to 53 bits: they are values of `Double`, so that they are
-- whole and come back.
pub record IsExact (f : Floats) : Type 0 where
  pub whole : (n : ℤ) → magnitude n < 2 ^ 53 → f.is_integer (f.of_int n) ≡ true
  pub back : (n : ℤ) → magnitude n < 2 ^ 53 → f.to_int (f.of_int n) ≡ some n

-- No zero stands in the text.
abbrev pub NoZero : List ℕ → Type 0
NoZero s = string_of s ≡ s

-- A field of an error that may be `nil`.
abbrev pub Kept : Option (List ℕ) → Type 0
Kept none = Unit
Kept (some s) = NoZero s

-- A field that errors inherit: it is there.
abbrev pub Given : Option (List ℕ) → Type 0
Given none = ⊥
Given (some s) = NoZero s

module _ (f : Floats) where
  unfoldable mutual
    pub Survives : Native f.Double → Type 0
    Survives ns_null = Unit
    Survives (text s) = NoZero s
    Survives (flag b) = Unit
    Survives (int n) = magnitude n < 2 ^ 53
    Survives (uint n) = ⊥
    Survives (double d) = f.is_integer d ≡ false
    Survives (instant d) =
        (f.is_finite (f.time_clip (f.thousandfold d)) ≡ true)
        × (f.thousandth (f.time_clip (f.thousandfold d)) ≡ d)
    Survives (list ns) = AllSurvive ns
    Survives (js_function r) = Unit
    Survives (js_error e) = Given e.name × Given e.message × Kept e.cause × Kept e.stack
    Survives (js_class r) = Unit
    Survives (dictionary es) = EntriesSurvive es
    Survives foreign = ⊥
    Survives stray = ⊥

    pub AllSurvive : Natives f.Double → Type 0
    AllSurvive end = Unit
    AllSurvive (item n ns) = Survives n × AllSurvive ns

    pub EntriesSurvive : Entries f.Double → Type 0
    EntriesSurvive no_more = Unit
    EntriesSurvive (entry name n es) = NoZero name × Survives n × EntriesSurvive es
