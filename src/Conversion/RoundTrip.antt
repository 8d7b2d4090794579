-- ===== src/Conversion/RoundTrip.antt =====
-- From Swift to JavaScript and back.
use substrata_swift.Prelude.{ℕ, ◌^◌, ◌<◌, ◌≡◌, refl, ap, ◌∙◌, false}
use substrata_swift.Prelude.{[]}
use substrata_swift.Prelude.{Bool-cases, inl, inr, Option, none, some, List}
use substrata_swift.Prelude.Int.{ℤ, magnitude, in_range}
use substrata_swift.Str.{string_of}
use substrata_swift.Conversion.{
  Floats, JsError, JsValue, JsValues, Properties, Native, Natives, Entries,
}
use substrata_swift.Conversion.{
  number, new_int64, field_value, described, error_value, error_name, to_native, to_natives,
  to_entries, error_of,
}
use substrata_swift.Conversion.{to_js, to_js_items, to_js_properties}
use substrata_swift.Conversion.{
  undefined, null, string, bool, float64, date, array, function, instance_of, object,
}
use substrata_swift.Conversion.{property}
use substrata_swift.Conversion.{ns_null, text, flag, int, uint, double, instant, list, js_function}
use substrata_swift.Conversion.{
  js_error, js_class, dictionary, foreign, stray, item, end, entry, no_more,
}
use substrata_swift.Conversion.Clean.{
  IsExact, Survives, AllSurvive, EntriesSurvive, NoZero, Kept, Given,
}

module _ (f : Floats) (law : IsExact f) where
  number_of_int : (n : ℤ) → magnitude n < 2 ^ 53 → number f (f.of_int n) ≡ some (some (int n))
  unfolding number
  number_of_int n h = rw (law.whole n h, law.back n h)

  number_of_double : (d : f.Double) → f.is_integer d ≡ false → number f d ≡ some (some (double d))
  unfolding number
  number_of_double d h = rw h

  to_native-new_int64 :
      (n : ℤ) → magnitude n < 2 ^ 53 → to_native f (new_int64 f n) ≡ some (some (int n))
  unfolding new_int64 to_native
  to_native-new_int64 n h = elim (Bool-cases (in_range (2 ^ 31) n)) [
    | inl small ↦ rw small (number_of_int n h)
    | inr large ↦ rw large (number_of_int n h)
  ]

  module _ (made : ℕ) where
    abbrev Comes : Native f.Double → Type 0
    Comes n =
        (v : JsValue f.Double) × (to_js f made n ≡ some (some v)) × (to_native f v ≡ some (some n))

    -- What is read of a field that was set.
    abbrev Reads : JsValue f.Double → Option (List ℕ) → Type 0
    Reads v field =
        (n : Option (Native f.Double)) × (to_native f v ≡ some n) × (described f.shown n ≡ field)

    field_back :
        (inherited : JsValue f.Double) (s : List ℕ)
        → NoZero s
        → Reads (field_value inherited (some s)) (some s)
    unfolding field_value to_native described
    field_back inherited s h =
        (some (text (string_of (string_of s))), refl, ap some (ap string_of h ∙ h))

    named_back :
        (inherited : JsValue f.Double) (field : Option (List ℕ))
        → Given field
        → Reads (field_value inherited field) field
    named_back inherited none h = absurd h
    named_back inherited (some s) h = field_back inherited s h

    other_back : (field : Option (List ℕ)) → Kept field → Reads (field_value undefined field) field
    unfolding field_value to_native described
    other_back none h = (none, refl, refl)
    other_back (some s) h = field_back undefined s h

    error_comes :
        (e : JsError)
        → Given e.name × Given e.message × Kept e.cause × Kept e.stack
        → to_native f (error_value e) ≡ some (some (js_error e))
    unfolding error_value to_native error_of
    error_comes e h =
        let (n, en, dn) = named_back (string error_name) e.name h.0 in
        let (m, em, dm) = named_back (string []) e.message h.1 in
        let (c, ec, dc) = other_back e.cause h.2 in
        let (s, es, ds) = other_back e.stack h.3 in rw (en, em, ec, es, dn, dm, dc, ds) refl

    mutual
      unfolding to_native to_js Survives

      comes : (n : Native f.Double) → Survives f n → Comes n
      comes ns_null h = (null, refl, refl)
      comes (text s) h =
          (string (string_of s), refl, ap (λ t. some (some (text t))) (ap string_of h ∙ h))
      comes (flag b) h = (bool b, refl, refl)
      comes (int n) h = (new_int64 f n, refl, to_native-new_int64 n h)
      comes (uint n) h = absurd h
      comes (double d) h = (float64 d, refl, number_of_double d h)
      comes (instant d) h = (date (f.time_clip (f.thousandfold d)) made, refl, rw (h.0, h.1))
      comes (list ns) h = let (vs, there, back) = all_come ns h in (array vs, rw there, rw back)
      comes (js_function r) h = (function r, refl, refl)
      comes (js_error e) h = (error_value e, refl, error_comes e h)
      comes (js_class r) h = (instance_of r, refl, refl)
      comes (dictionary es) h =
          let (ps, there, back) = entries_come es h in (object ps, rw there, rw back)
      comes foreign h = absurd h
      comes stray h = absurd h

      all_come :
          (ns : Natives f.Double)
          → AllSurvive f ns
          → (vs : JsValues f.Double) × (to_js_items f made ns ≡ some vs)
            × (to_natives f vs ≡ some ns)
      all_come end h = (end, refl, refl)
      all_come (item n ns) h =
          let (v, there, back) = comes n h.0 in
          let (vs, theres, backs) = all_come ns h.1 in
          (item v vs, rw (there, theres), rw (back, backs))

      entries_come :
          (es : Entries f.Double)
          → EntriesSurvive f es
          → (ps : Properties f.Double) × (to_js_properties f made es ≡ some ps)
            × (to_entries f ps ≡ some es)
      entries_come no_more h = (no_more, refl, refl)
      entries_come (entry name n es) h =
          let (v, there, back) = comes n h.1 in
          let (ps, theres, backs) = entries_come es h.2 in
          (
            property (string_of name) v ps,
            rw (there, theres),
            rw (back, backs) (ap (λ t. some (entry t n es)) (ap string_of h.0 ∙ h.0)),
          )
