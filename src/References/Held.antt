-- ===== src/References/Held.antt =====
-- As many references are held in the end as there are functions and objects of a class in the result.
use substrata_swift.Prelude.{ℕ, ◌+◌, ◌≡◌, refl, sym, ◌∙◌, arith, if◌then◌else◌, Bool, true, false}
use substrata_swift.Prelude.{Option, some, Option-cases, inl, inr}
use substrata_swift.Prelude.{List, ◌++◌, length, length-append}
use substrata_swift.Conversion.Clean.{IsExact}
use substrata_swift.Conversion.{Floats, JsValue, JsValues, Properties, Native}
use substrata_swift.Conversion.{to_native}
use substrata_swift.Conversion.{undefined, exception, null, string, bool, int32, float64}
use substrata_swift.Conversion.{date, array, function, error, instance_of, object, symbol}
use substrata_swift.Conversion.{end, item, no_more, property}
use substrata_swift.References.{Ledger, Action, acquire, free_reference, nothing, both, with_value}
use substrata_swift.References.{keep, dropped, give_back_all}
use substrata_swift.References.Convert.{convert, convert_items, convert_properties, date_test}
use substrata_swift.References.Convert.{function_name, class_name, size, read_array}
use substrata_swift.References.Kept.{IsSized, AreSized, HasSized, length-is_size, fields}
use substrata_swift.References.Results.{
  result_handles, objects_in, objects_among, objects_below, result_handles-to_native,
}

-- Where the action ends, it leaves so many handles.
abbrev pub Leaves : ℕ → Action → Type 0
Leaves k m = (l : Ledger) (hs : List ℕ) (l' : Ledger) → m l ≡ some (hs, l') → length hs ≡ k

pub nothing-Leaves : Leaves 0 nothing
unfolding nothing
nothing-Leaves l hs l' h = ground (arith, h)

pub keep-Leaves : Leaves 1 keep
unfolding keep acquire
keep-Leaves l hs l' h = ground (arith, h)

pub both-Leaves :
    (j k total : ℕ) (m m' : Action)
    → j + k ≡ total
    → Leaves j m
    → Leaves k m'
    → Leaves total (both m m')
unfolding both
both-Leaves j k total m m' sum first second l hs l' h = elim (Option-cases (m l)) [
  | inl stuck ↦ cc (rw stuck at h)
  | inr ((hs1, l1), e1) ↦ elim (Option-cases (m' l1)) [
    | inl stuck ↦ cc (rw (e1, stuck) at h)
    | inr ((hs2, l2), e2) ↦
        (let same : hs2 ++ hs1 ≡ hs = ground (arith, rw (e1, e2) at h) in
          rw (← same)
            (omega (arith, sum, length-append hs2 hs1, first l hs1 l1 e1, second l1 hs2 l2 e2)))
  ]
]

pub with_value-Leaves : (k : ℕ) (m : Action) → Leaves k m → Leaves k (with_value m)
unfolding with_value acquire
with_value-Leaves k m leaves l hs l' h = elim (Option-cases (m (acquire l).1)) [
  | inl stuck ↦ cc (rw stuck at h)
  | inr ((hs1, l1), e1) ↦ elim (Option-cases (free_reference l.next l1)) [
    | inl stuck ↦ cc (rw (e1, stuck) at h)
    | inr (l2, e2) ↦
        (let same : hs1 ≡ hs = ground (arith, rw (e1, e2) at h) in
          rw (← same) (leaves (acquire l).1 hs1 l1 e1))
  ]
]

dropped-Leaves : (m : Action) → Leaves 0 (dropped m)
unfolding dropped
dropped-Leaves m l hs l' h = elim (Option-cases (m l)) [
  | inl stuck ↦ cc (rw stuck at h)
  | inr ((hs1, l1), e1) ↦ elim (Option-cases (give_back_all hs1 l1)) [
    | inl stuck ↦ cc (rw (e1, stuck) at h)
    | inr (l2, e2) ↦ ground (arith, rw (e1, e2) at h)
  ]
]

pub fields-Leaves : (n m c s : Action) → Leaves 0 (fields n m c s)
fields-Leaves n m c s =
    let one = λ (a : Action). with_value-Leaves 0 (dropped a) (dropped-Leaves a) in
    let last =
      both-Leaves 0 0 0 (with_value (dropped c)) (with_value (dropped s)) refl (one c) (one s) in
    let later =
      both-Leaves 0 0 0 (with_value (dropped m))
        (both (with_value (dropped c)) (with_value (dropped s))) refl (one m) last in
    both-Leaves 0 0 0 (with_value (dropped n))
      (both (with_value (dropped m)) (both (with_value (dropped c)) (with_value (dropped s)))) refl
      (one n) later

date_test-Leaves : Leaves 0 date_test
unfolding date_test
date_test-Leaves =
    with_value-Leaves 0 (with_value nothing) (with_value-Leaves 0 nothing nothing-Leaves)

pub function_name-Leaves : Leaves 0 function_name
unfolding function_name
function_name-Leaves = with_value-Leaves 0 nothing nothing-Leaves

pub class_name-Leaves : Leaves 0 class_name
unfolding class_name
class_name-Leaves = with_value-Leaves 0 function_name function_name-Leaves

-- The tests before a value is taken hold nothing.
pub tested : (k : ℕ) (m : Action) → Leaves k m → Leaves k (both date_test m)
tested k m leaves = both-Leaves 0 k k date_test m (omega arith) date_test-Leaves leaves

pub one_kept : (m : Action) → Leaves 0 m → Leaves 1 (both date_test (both keep m))
one_kept m leaves = tested 1 (both keep m) (both-Leaves 1 0 1 keep m refl keep-Leaves leaves)

pub either-Leaves :
    (b : Bool) (j k : ℕ) (m m' : Action)
    → Leaves j m
    → Leaves k m'
    → Leaves (if b then j else k) (if b then m else m')
either-Leaves true j k m m' h h' = h
either-Leaves false j k m m' h h' = h'

pub read_array-Leaves : (k : ℕ) (m : Action) → Leaves k m → Leaves k (read_array true m)
unfolding read_array
read_array-Leaves k m h = with_value-Leaves k m h

module _ (f : Floats) (law : IsExact f) where
  mutual
    unfolding convert convert_items convert_properties IsSized AreSized HasSized objects_in

    convert-Leaves : (v : JsValue f.Double) → IsSized f v → Leaves (objects_in f v) (convert f v)
    convert-Leaves undefined h = nothing-Leaves
    convert-Leaves (exception n m c s) h =
        with_value-Leaves 0 (fields (convert f n) (convert f m) (convert f c) (convert f s))
          (fields-Leaves (convert f n) (convert f m) (convert f c) (convert f s))
    convert-Leaves null h = nothing-Leaves
    convert-Leaves (string s) h = nothing-Leaves
    convert-Leaves (bool b) h = nothing-Leaves
    convert-Leaves (int32 n) h = nothing-Leaves
    convert-Leaves (float64 d) h = nothing-Leaves
    convert-Leaves (date d r) h =
        tested (if f.is_finite d then 0 else 1)
          (if f.is_finite d then nothing else both keep class_name)
          (either-Leaves (f.is_finite d) 0 1 nothing (both keep class_name) nothing-Leaves
            (both-Leaves 1 0 1 keep class_name refl keep-Leaves class_name-Leaves))
    convert-Leaves (array vs) h = rw (length-is_size f law (size f vs) h.0) (
        tested (objects_among f vs) (read_array true (convert_items f vs)) (
          read_array-Leaves (objects_among f vs) (convert_items f vs)
            (convert_items-Leaves vs h.1)))
    convert-Leaves (function r) h = one_kept function_name function_name-Leaves
    convert-Leaves (error n m c s) h =
        tested 0 (fields (convert f n) (convert f m) (convert f c) (convert f s))
          (fields-Leaves (convert f n) (convert f m) (convert f c) (convert f s))
    convert-Leaves (instance_of r) h = one_kept class_name class_name-Leaves
    convert-Leaves (object ps) h =
        tested (objects_below f ps) (both (with_value class_name) (convert_properties f ps)) (
          both-Leaves 0 (objects_below f ps) (objects_below f ps) (with_value class_name)
            (convert_properties f ps) (omega arith)
            (with_value-Leaves 0 class_name class_name-Leaves) (convert_properties-Leaves ps h))
    convert-Leaves symbol h = nothing-Leaves

    convert_items-Leaves :
        (vs : JsValues f.Double) → AreSized f vs → Leaves (objects_among f vs) (convert_items f vs)
    convert_items-Leaves end h = nothing-Leaves
    convert_items-Leaves (item v vs) h =
        both-Leaves (objects_in f v) (objects_among f vs) (objects_in f v + objects_among f vs)
          (with_value (convert f v)) (convert_items f vs) refl
          (with_value-Leaves (objects_in f v) (convert f v) (convert-Leaves v h.0))
          (convert_items-Leaves vs h.1)

    convert_properties-Leaves :
        (ps : Properties f.Double)
        → HasSized f ps
        → Leaves (objects_below f ps) (convert_properties f ps)
    convert_properties-Leaves no_more h = nothing-Leaves
    convert_properties-Leaves (property name v ps) h =
        both-Leaves (objects_in f v) (objects_below f ps) (objects_in f v + objects_below f ps)
          (with_value (convert f v)) (convert_properties f ps) refl
          (with_value-Leaves (objects_in f v) (convert f v) (convert-Leaves v h.0))
          (convert_properties-Leaves ps h.1)

  -- What `toJSConvertible` leaves held is as many references as its result has handles.
  pub length-convert :
      (v : JsValue f.Double) (n : Option (Native f.Double)) (l l' : Ledger) (hs : List ℕ)
      → IsSized f v
      → convert f v l ≡ some (hs, l')
      → to_native f v ≡ some n
      → length hs ≡ result_handles n
  length-convert v n l l' hs h ran e =
      convert-Leaves v h l hs l' ran ∙ sym (result_handles-to_native f v n e)
