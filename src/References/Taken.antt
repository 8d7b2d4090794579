-- ===== src/References/Taken.antt =====
-- Conversions out of Swift hold in the end the new value alone: what is made for its parts is taken over
-- by the engine.
use substrata_swift.Prelude.{ℕ, ◌≡◌, refl, arith, Option, none, some}
use substrata_swift.Prelude.{◌>>=◌, List, [], ◌∷◌}
use substrata_swift.Conversion.{Native, Natives, Entries, JsError}
use substrata_swift.Conversion.{end, item, no_more, entry}
use substrata_swift.Conversion.{ns_null, text, flag, int, uint, double, instant, list, js_function}
use substrata_swift.Conversion.{js_error, js_class, dictionary, foreign, stray}
use substrata_swift.References.{Ledger, acquire, free_reference}
use substrata_swift.References.Balanced.{Balanced, Balanced-then}
use substrata_swift.References.Balanced.{remove-Within}
use substrata_swift.References.Build.{Builder, new_value, give, set_field, set_fields, build}
use substrata_swift.References.Build.{build_items, build_entries}

-- The new reference, where there is one.
abbrev pub tokens : Option ℕ → List ℕ
tokens none = []
tokens (some t) = t ∷ []

abbrev pub Makes : Builder → Type 0
Makes b =
    (l : Ledger) → (v : Option ℕ) × (l' : Ledger) × (b l ≡ some (v, l')) × Balanced l (tokens v) l'

-- Nothing more is held in the end.
abbrev pub IsNeutral : (Ledger → Option Ledger) → Type 0
IsNeutral m = (l : Ledger) → (l' : Ledger) × (m l ≡ some l') × Balanced l [] l'

pub acquire-Balanced : (l : Ledger) → Balanced l (l.next ∷ []) (acquire l).1
unfolding acquire
acquire-Balanced l = record {
  held = refl;
  fresh = (omega arith, omega arith, tt);
  grows = omega arith;
}

new_value-Makes : Makes new_value
unfolding new_value acquire
new_value-Makes l = (some l.next, (acquire l).1, refl, acquire-Balanced l)

pub give-Balanced :
    (l l1 : Ledger) (v : Option ℕ)
    → Balanced l (tokens v) l1
    → (l' : Ledger) × (give v l1 ≡ some l') × Balanced l [] l'
unfolding give free_reference
give-Balanced l l1 none b = (l1, refl, b)
give-Balanced l l1 (some t) b = (
  record l1 { held = l.held },
  rw (b.held, remove-Within t l1.next [] l.held tt) refl,
  record { held = refl; fresh = tt; grows = b.grows },
)

set_field-IsNeutral : (s : Option (List ℕ)) → IsNeutral (set_field s)
unfolding set_field new_value acquire
set_field-IsNeutral none l = (l, refl, record { held = refl; fresh = tt; grows = omega arith })
set_field-IsNeutral (some s) l = give-Balanced l (acquire l).1 (some l.next) (acquire-Balanced l)

IsNeutral-then :
    (m m' : Ledger → Option Ledger)
    → IsNeutral m
    → IsNeutral m'
    → IsNeutral (λ l. m l >>= λ l'. m' l')
IsNeutral-then m m' h h' l =
    let (l1, e, b) = h l in
    let (l2, e', b') = h' l1 in (l2, rw (e, e') refl, Balanced-then l l1 l2 [] [] b b')

set_fields-IsNeutral : (e : JsError) → IsNeutral (set_fields e)
unfolding set_fields
set_fields-IsNeutral e =
    IsNeutral-then (set_field e.message)
      (λ l1. set_field e.name l1 >>= λ l2. set_field e.cause l2 >>= λ l3. set_field e.stack l3)
      (set_field-IsNeutral e.message)
      (IsNeutral-then (set_field e.name) (λ l2. set_field e.cause l2 >>= λ l3. set_field e.stack l3)
        (set_field-IsNeutral e.name)
        (IsNeutral-then (set_field e.cause) (set_field e.stack) (set_field-IsNeutral e.cause)
          (set_field-IsNeutral e.stack)))

-- A new container, and what is stored in it.
container :
    (m : Ledger → Option Ledger) (l : Ledger)
    → IsNeutral m
    → (l' : Ledger) × (m (acquire l).1 ≡ some l') × Balanced l (l.next ∷ []) l'
container m l neutral =
    let (l', e, b) = neutral (acquire l).1 in
    (l', e, Balanced-then l (acquire l).1 l' (l.next ∷ []) [] (acquire-Balanced l) b)

module _ {D : Type 0} where
  mutual
    unfolding build build_items build_entries new_value acquire

    -- `toJSValue` gives nothing back twice, and holds in the end the new value alone: what was made for
    -- its parts belongs to the engine.
    pub build-Makes : (n : Native D) → Makes (build n)
    build-Makes ns_null l = new_value-Makes l
    build-Makes (text s) l = new_value-Makes l
    build-Makes (flag b) l = new_value-Makes l
    build-Makes (int n) l = new_value-Makes l
    build-Makes (uint n) l = new_value-Makes l
    build-Makes (double d) l = new_value-Makes l
    build-Makes (instant d) l = new_value-Makes l
    build-Makes (list ns) l =
        let (l', e, b) = container (build_items ns) l (build_items-IsNeutral ns) in
        (some l.next, l', rw e refl, b)
    build-Makes (js_function r) l = new_value-Makes l
    build-Makes (js_error fields) l =
        let (l', e, b) = container (set_fields fields) l (set_fields-IsNeutral fields) in
        (some l.next, l', rw e refl, b)
    build-Makes (js_class r) l = new_value-Makes l
    build-Makes (dictionary es) l =
        let (l', e, b) = container (build_entries es) l (build_entries-IsNeutral es) in
        (some l.next, l', rw e refl, b)
    build-Makes foreign l = (none, l, refl, record { held = refl; fresh = tt; grows = omega arith })
    build-Makes stray l = (none, l, refl, record { held = refl; fresh = tt; grows = omega arith })

    build_items-IsNeutral : (ns : Natives D) → IsNeutral (build_items ns)
    build_items-IsNeutral end l = (l, refl, record { held = refl; fresh = tt; grows = omega arith })
    build_items-IsNeutral (item n ns) l =
        let (v, l1, e, made) = build-Makes n l in
        let (l2, e', given) = give-Balanced l l1 v made in
        let (l3, e'', rest) = build_items-IsNeutral ns l2 in
        (l3, rw (e, e', e'') refl, Balanced-then l l2 l3 [] [] given rest)

    build_entries-IsNeutral : (es : Entries D) → IsNeutral (build_entries es)
    build_entries-IsNeutral no_more l =
        (l, refl, record { held = refl; fresh = tt; grows = omega arith })
    build_entries-IsNeutral (entry name n es) l =
        let (v, l1, e, made) = build-Makes n l in
        let (l2, e', given) = give-Balanced l l1 v made in
        let (l3, e'', rest) = build_entries-IsNeutral es l2 in
        (l3, rw (e, e', e'') refl, Balanced-then l l2 l3 [] [] given rest)
