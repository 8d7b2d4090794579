-- ===== src/References/Results.antt =====
-- The handles of a result are the functions and the objects of a class in the value that it is made of.
use substrata_swift.Prelude.{ℕ, ◌+◌, ◌≡◌, refl, arith, if◌then◌else◌}
use substrata_swift.Prelude.{Option, none, some, ◌>>=◌, Option-cases, Bool-cases, inl, inr}
use substrata_swift.Prelude.{List}
use substrata_swift.Str.{string_of}
use substrata_swift.Conversion.{Floats, JsValue, JsValues, Properties, Native, Natives, Entries}
use substrata_swift.Conversion.{to_native, to_natives, to_entries, number, error_of}
use substrata_swift.Conversion.{undefined, exception, null, string, bool, int32, float64}
use substrata_swift.Conversion.{date, array, function, error, instance_of, object, symbol}
use substrata_swift.Conversion.{end, item, no_more, property, entry, ns_null, list, dictionary}
use substrata_swift.Conversion.{js_function, js_class, js_error, instant, int, double}

module _ {D : Type 0} where
  -- The handles in a value of Swift, at any depth.
  unfoldable mutual
    pub handles : Native D → ℕ
    handles (js_function r) = 1
    handles (js_class r) = 1
    handles (list ns) = all_handles ns
    handles (dictionary es) = entry_handles es
    handles _ = 0

    pub all_handles : Natives D → ℕ
    all_handles end = 0
    all_handles (item n ns) = handles n + all_handles ns

    pub entry_handles : Entries D → ℕ
    entry_handles no_more = 0
    entry_handles (entry name n es) = handles n + entry_handles es

  unfoldable pub result_handles : Option (Native D) → ℕ
  unfolding handles
  result_handles none = 0
  result_handles (some n) = handles n

held_element :
    {D : Type 0} (n : Option (Native D))
    → handles (elim n as (λ t. Native D) [ none ↦ ns_null | some m ↦ m ]) ≡ result_handles n
unfolding result_handles handles
held_element none = refl
held_element (some n) = refl

held_entry :
    {D : Type 0} (name : List ℕ) (n : Option (Native D)) (es : Entries D)
    → entry_handles (elim n as (λ t. Entries D) [ none ↦ es | some m ↦ entry name m es ])
      ≡ result_handles n + entry_handles es
unfolding result_handles handles
held_entry name none es = omega arith
held_entry name (some n) es = refl

module _ (f : Floats) where
  -- The functions and objects of a class in a value of JavaScript; a date that is no time is such an
  -- object.
  unfoldable mutual
    pub objects_in : JsValue f.Double → ℕ
    objects_in (function r) = 1
    objects_in (instance_of r) = 1
    objects_in (date d r) = if f.is_finite d then 0 else 1
    objects_in (array vs) = objects_among vs
    objects_in (object ps) = objects_below ps
    objects_in _ = 0

    pub objects_among : JsValues f.Double → ℕ
    objects_among end = 0
    objects_among (item v vs) = objects_in v + objects_among vs

    pub objects_below : Properties f.Double → ℕ
    objects_below no_more = 0
    objects_below (property name v ps) = objects_in v + objects_below ps

  result_handles-number :
      (d : f.Double) (n : Option (Native f.Double)) → number f d ≡ some n → result_handles n ≡ 0
  unfolding number result_handles handles
  result_handles-number d n h = elim (Bool-cases (f.is_integer d)) [
    | inl whole ↦ elim (Option-cases (f.to_int d)) [
      | inl trap ↦ cc (rw (whole, trap) at h)
      | inr (k, e) ↦
          (let same : some (int k) ≡ n = ground (arith, rw (whole, e) at h) in rw (← same) refl)
    ]
    | inr broken ↦
        (let same : some (double d) ≡ n = ground (arith, rw broken at h) in rw (← same) refl)
  ]

  module _ {A B E G : Type 0} (g : A → B → E → G → Native f.Double) where
    result_handles-four :
        (a : Option A) (b : Option B) (c : Option E) (d : Option G) (n : Option (Native f.Double))
        → ((x : A) (y : B) (z : E) (w : G) → handles (g x y z w) ≡ 0)
        → (a >>= λ x. b >>= λ y. c >>= λ z. d >>= λ w. some (some (g x y z w))) ≡ some n
        → result_handles n ≡ 0
    unfolding result_handles
    result_handles-four none b c d n none_held h = cc
    result_handles-four (some x) none c d n none_held h = cc
    result_handles-four (some x) (some y) none d n none_held h = cc
    result_handles-four (some x) (some y) (some z) none n none_held h = cc
    result_handles-four (some x) (some y) (some z) (some w) n none_held h =
        let same : some (g x y z w) ≡ n = ground (arith, h) in rw (← same) (none_held x y z w)

  mutual
    unfolding to_native objects_in result_handles handles

    pub result_handles-to_native :
        (v : JsValue f.Double) (n : Option (Native f.Double))
        → to_native f v ≡ some n
        → result_handles n ≡ objects_in v
    result_handles-to_native undefined n h = ground (arith, h)
    result_handles-to_native (exception e m c s) n h =
        result_handles-four (λ a b d t. js_error (error_of f a b d t)) (to_native f e)
          (to_native f m) (to_native f c) (to_native f s) n (λ a b d t. refl) h
    result_handles-to_native null n h = ground (arith, h)
    result_handles-to_native (string s) n h = ground (arith, h)
    result_handles-to_native (bool b) n h = ground (arith, h)
    result_handles-to_native (int32 k) n h = result_handles-number (f.of_int k) n h
    result_handles-to_native (float64 d) n h = result_handles-number d n h
    result_handles-to_native (date d r) n h = elim (Bool-cases (f.is_finite d)) [
      | inl time ↦
          (let same : some (instant (f.thousandth d)) ≡ n = ground (arith, rw time at h) in
            rw (time, ← same) refl)
      | inr odd ↦
          (let same : some (js_class r) ≡ n = ground (arith, rw odd at h) in rw (odd, ← same) refl)
    ]
    result_handles-to_native (array vs) n h = elim (Option-cases (to_natives f vs)) [
      | inl trap ↦ cc (rw trap at h)
      | inr (ns, e) ↦
          (let same : some (list ns) ≡ n = ground (arith, rw e at h) in
            rw (← same) (all_handles-to_natives vs ns e))
    ]
    result_handles-to_native (function r) n h = ground (arith, h)
    result_handles-to_native (error e m c s) n h =
        result_handles-four (λ a b d t. js_error (error_of f a b d t)) (to_native f e)
          (to_native f m) (to_native f c) (to_native f s) n (λ a b d t. refl) h
    result_handles-to_native (instance_of r) n h = ground (arith, h)
    result_handles-to_native (object ps) n h = elim (Option-cases (to_entries f ps)) [
      | inl trap ↦ cc (rw trap at h)
      | inr (es, e) ↦
          (let same : some (dictionary es) ≡ n = ground (arith, rw e at h) in
            rw (← same) (entry_handles-to_entries ps es e))
    ]
    result_handles-to_native symbol n h = ground (arith, h)

    all_handles-to_natives :
        (vs : JsValues f.Double) (ns : Natives f.Double)
        → to_natives f vs ≡ some ns
        → all_handles ns ≡ objects_among vs
    all_handles-to_natives end ns h = let same : end ≡ ns = ground (arith, h) in rw (← same) refl
    all_handles-to_natives (item v vs) ns h = elim (Option-cases (to_native f v)) [
      | inl trap ↦ cc (rw trap at h)
      | inr (n, e) ↦ elim (Option-cases (to_natives f vs)) [
        | inl trap ↦ cc (rw (e, trap) at h)
        | inr (ns', e') ↦
            (let first = result_handles-to_native v n e in
              let same : item (elim n as (λ t. Native f.Double) [ none ↦ ns_null | some m ↦ m ]) ns'
                  ≡ ns =
                ground (arith, rw (e, e') at h) in
              rw (← same) (omega (arith, held_element n, first, all_handles-to_natives vs ns' e')))
      ]
    ]

    entry_handles-to_entries :
        (ps : Properties f.Double) (es : Entries f.Double)
        → to_entries f ps ≡ some es
        → entry_handles es ≡ objects_below ps
    entry_handles-to_entries no_more es h =
        let same : no_more ≡ es = ground (arith, h) in rw (← same) refl
    entry_handles-to_entries (property name v ps) es h = elim (Option-cases (to_native f v)) [
      | inl trap ↦ cc (rw trap at h)
      | inr (n, e) ↦ elim (Option-cases (to_entries f ps)) [
        | inl trap ↦ cc (rw (e, trap) at h)
        | inr (es', e') ↦
            (let first = result_handles-to_native v n e in
              let same : (elim n as (λ t. Entries f.Double) [
                | none ↦ es'
                | some m ↦ entry (string_of name) m es'
              ])
                  ≡ es =
                ground (arith, rw (e, e') at h) in
              rw (← same) (
                omega (
                  arith,
                  held_entry (string_of name) n es',
                  first,
                  entry_handles-to_entries ps es' e',
                )))
      ]
    ]
