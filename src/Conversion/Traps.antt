-- ===== src/Conversion/Traps.antt =====
-- Where the conversions trap.
use substrata_swift.Prelude.{
  ℕ, ◌^◌, ◌≡◌, refl, sym, ◌∙◌, arith, Bool, true, false, not, ltb, ◌&&◌, ◌||◌,
}
use substrata_swift.Prelude.{Option, none, some, ◌>>=◌, ◌↔◌}
use substrata_swift.Str.{string_of}
use substrata_swift.Conversion.{Floats, JsValue, JsValues, Properties, Native, Natives, Entries}
use substrata_swift.Conversion.{number, to_native, to_natives, to_entries, error_of}
use substrata_swift.Conversion.{to_js, to_js_items, to_js_properties}
use substrata_swift.Conversion.{
  undefined, exception, null, string, bool, int32, float64, date, array,
}
use substrata_swift.Conversion.{function, error, instance_of, object, symbol, property}
use substrata_swift.Conversion.{ns_null, text, flag, int, uint, double, instant, list, js_function}
use substrata_swift.Conversion.{
  js_error, js_class, dictionary, foreign, stray, item, end, entry, no_more,
}

abbrev is_none {ℓ} : {A : Type ℓ} → Option A → Bool
is_none none = true
is_none (some a) = false

is_none_bind :
    {A B : Type 0} (m : Option A) (g : A → B) → is_none (m >>= λ a. some (g a)) ≡ is_none m
is_none_bind none g = refl
is_none_bind (some a) g = refl

is_none_both :
    {A B E : Type 0} (m : Option A) (k : Option B) (g : A → B → E)
    → is_none (m >>= λ a. k >>= λ b. some (g a b)) ≡ (is_none m || is_none k)
is_none_both none k g = refl
is_none_both (some a) none g = refl
is_none_both (some a) (some b) g = refl

is_none_four :
    {A B E F G : Type 0} (m : Option A) (k : Option B) (p : Option E) (q : Option F)
    (g : A → B → E → F → G)
    → is_none (m >>= λ a. k >>= λ b. p >>= λ c. q >>= λ d. some (g a b c d))
      ≡ (is_none m || (is_none k || (is_none p || is_none q)))
is_none_four none k p q g = refl
is_none_four (some a) none p q g = refl
is_none_four (some a) (some b) none q g = refl
is_none_four (some a) (some b) (some c) none g = refl
is_none_four (some a) (some b) (some c) (some d) g = refl

is_none_iff {ℓ} : {A : Type ℓ} (m : Option A) → (m ≡ none) ↔ (is_none m ≡ true)
is_none_iff none = (λ h. refl, λ h. refl)
is_none_iff (some a) = (λ h. cc, λ h. cc)

module _ (f : Floats) where
  -- A whole number that `Int` does not hold.
  unfoldable pub is_huge : f.Double → Bool
  is_huge d = f.is_integer d && is_none (f.to_int d)

  -- Such a number stands in the value, at any depth.
  unfoldable mutual
    unfolding is_huge

    pub holds_huge : JsValue f.Double → Bool
    holds_huge (int32 n) = is_huge (f.of_int n)
    holds_huge (float64 d) = is_huge d
    holds_huge (array vs) = any_huge vs
    holds_huge (object ps) = entry_huge ps
    holds_huge (exception n m c s) =
        holds_huge n || (holds_huge m || (holds_huge c || holds_huge s))
    holds_huge (error n m c s) = holds_huge n || (holds_huge m || (holds_huge c || holds_huge s))
    holds_huge _ = false

    pub any_huge : JsValues f.Double → Bool
    any_huge end = false
    any_huge (item v vs) = holds_huge v || any_huge vs

    pub entry_huge : Properties f.Double → Bool
    entry_huge no_more = false
    entry_huge (property name v ps) = holds_huge v || entry_huge ps

  is_none-number : (d : f.Double) → is_none (number f d) ≡ is_huge d
  unfolding number is_huge
  is_none-number d = ground arith

  mutual
    unfolding to_native holds_huge

    is_none-to_native : (v : JsValue f.Double) → is_none (to_native f v) ≡ holds_huge v
    is_none-to_native undefined = refl
    is_none-to_native (exception n m c s) =
        is_none_four (to_native f n) (to_native f m) (to_native f c) (to_native f s)
          (λ n' m' c' s'. some (js_error (error_of f n' m' c' s')))
        ∙ rw (is_none-to_native n, is_none-to_native m, is_none-to_native c, is_none-to_native s)
            refl
    is_none-to_native null = refl
    is_none-to_native (string s) = refl
    is_none-to_native (bool b) = refl
    is_none-to_native (int32 n) = is_none-number (f.of_int n)
    is_none-to_native (float64 d) = is_none-number d
    is_none-to_native (date d r) = ground arith
    is_none-to_native (array vs) =
        is_none_bind (to_natives f vs) (λ ns. some (list ns)) ∙ is_none-to_natives vs
    is_none-to_native (function r) = refl
    is_none-to_native (error n m c s) =
        is_none_four (to_native f n) (to_native f m) (to_native f c) (to_native f s)
          (λ n' m' c' s'. some (js_error (error_of f n' m' c' s')))
        ∙ rw (is_none-to_native n, is_none-to_native m, is_none-to_native c, is_none-to_native s)
            refl
    is_none-to_native (instance_of r) = refl
    is_none-to_native (object ps) =
        is_none_bind (to_entries f ps) (λ es. some (dictionary es)) ∙ is_none-to_entries ps
    is_none-to_native symbol = refl

    is_none-to_natives : (vs : JsValues f.Double) → is_none (to_natives f vs) ≡ any_huge vs
    is_none-to_natives end = refl
    is_none-to_natives (item v vs) =
        is_none_both (to_native f v) (to_natives f vs)
          (λ n ns. item (elim n [ none ↦ ns_null | some m ↦ m ]) ns)
        ∙ rw (is_none-to_native v, is_none-to_natives vs)

    is_none-to_entries : (ps : Properties f.Double) → is_none (to_entries f ps) ≡ entry_huge ps
    is_none-to_entries no_more = refl
    is_none-to_entries (property name v ps) =
        is_none_both (to_native f v) (to_entries f ps)
          (λ n es. elim n [ none ↦ es | some m ↦ entry (string_of name) m es ])
        ∙ rw (is_none-to_native v, is_none-to_entries ps)

  -- An unsigned number of more than 32 bits stands in the value, at any depth.
  unfoldable mutual
    pub holds_wide : Native f.Double → Bool
    holds_wide (uint n) = not (ltb n (2 ^ 32))
    holds_wide (list ns) = any_wide ns
    holds_wide (dictionary es) = entry_wide es
    holds_wide _ = false

    pub any_wide : Natives f.Double → Bool
    any_wide end = false
    any_wide (item n ns) = holds_wide n || any_wide ns

    pub entry_wide : Entries f.Double → Bool
    entry_wide no_more = false
    entry_wide (entry name n es) = holds_wide n || entry_wide es

  module _ (made : ℕ) where
    mutual
      unfolding to_js holds_wide

      is_none-to_js : (n : Native f.Double) → is_none (to_js f made n) ≡ holds_wide n
      is_none-to_js ns_null = refl
      is_none-to_js (text s) = refl
      is_none-to_js (flag b) = refl
      is_none-to_js (int n) = refl
      is_none-to_js (uint n) = ground arith
      is_none-to_js (double d) = refl
      is_none-to_js (instant d) = refl
      is_none-to_js (list ns) =
          is_none_bind (to_js_items f made ns) (λ vs. some (array vs)) ∙ is_none-to_js_items ns
      is_none-to_js (js_function r) = refl
      is_none-to_js (js_error e) = refl
      is_none-to_js (js_class r) = refl
      is_none-to_js (dictionary es) =
          is_none_bind (to_js_properties f made es) (λ ps. some (object ps))
          ∙ is_none-to_js_properties es
      is_none-to_js foreign = refl
      is_none-to_js stray = refl

      is_none-to_js_items : (ns : Natives f.Double) → is_none (to_js_items f made ns) ≡ any_wide ns
      is_none-to_js_items end = refl
      is_none-to_js_items (item n ns) =
          is_none_both (to_js f made n) (to_js_items f made ns)
            (λ v vs. item (elim v [ none ↦ undefined | some w ↦ w ]) vs)
          ∙ rw (is_none-to_js n, is_none-to_js_items ns)

      is_none-to_js_properties :
          (es : Entries f.Double) → is_none (to_js_properties f made es) ≡ entry_wide es
      is_none-to_js_properties no_more = refl
      is_none-to_js_properties (entry name n es) =
          is_none_both (to_js f made n) (to_js_properties f made es)
            (λ v ps. elim v [ none ↦ ps | some w ↦ property (string_of name) w ps ])
          ∙ rw (is_none-to_js n, is_none-to_js_properties es)

-- `toJSValue` traps exactly when a `UInt` of more than 32 bits stands somewhere in the value.
pub to_js-none_iff :
    (f : Floats) (made : ℕ) (n : Native f.Double)
    → (to_js f made n ≡ none) ↔ (holds_wide f n ≡ true)
to_js-none_iff f made n =
    let same = is_none-to_js f made n in
    (
      λ h. sym same ∙ (is_none_iff (to_js f made n)).0 h,
      λ h. (is_none_iff (to_js f made n)).1 (same ∙ h),
    )
