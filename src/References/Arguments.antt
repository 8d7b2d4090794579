-- ===== src/References/Arguments.antt =====
-- The references of the arguments of a call: all are given back, in the order in which they were made,
-- from under those that came later.
use substrata_swift.Prelude.{ℕ, ◌+◌, ◌≤◌, ◌≡◌, refl, sym, ◌∙◌, ap, arith, Option, none, some}
use substrata_swift.Prelude.{List, [], ◌∷◌, ◌++◌}
use mathlib.Core.List.{append_assoc}
use substrata_swift.Conversion.{Native}
use substrata_swift.References.{Ledger, acquire, free_reference}
use substrata_swift.References.Balanced.{
  Balanced, Within, Within-append, Within-weaken, remove-Within,
}
use substrata_swift.References.Build.{or_null, build_args}
use substrata_swift.References.Taken.{tokens, build-Makes}
use substrata_swift.References.Calls.{release_all}

-- The last one first.
abbrev pub back : List ℕ → List ℕ
back [] = []
back (t ∷ ts) = back ts ++ t ∷ []

-- Each reference has a greater number than the one before it.
abbrev pub Rising : ℕ → List ℕ → ℕ → Type 0
Rising n [] m = n ≤ m
Rising n (t ∷ ts) m = (n ≤ t) × Rising (t + 1) ts m

Rising-weaken : (n n' m : ℕ) (ts : List ℕ) → n' ≤ n → Rising n ts m → Rising n' ts m
Rising-weaken n n' m [] le h = omega (arith, le, h)
Rising-weaken n n' m (t ∷ ts) le h = (omega (arith, le, h.0), h.1)

Rising-end : (n m : ℕ) (ts : List ℕ) → Rising n ts m → n ≤ m
Rising-end n m [] h = h
Rising-end n m (t ∷ ts) h = omega (arith, h.0, Rising-end (t + 1) m ts h.1)

back-Within : (n m : ℕ) (ts : List ℕ) → Rising n ts m → Within n m (back ts)
back-Within n m [] h = tt
back-Within n m (t ∷ ts) h =
    let later = back-Within (t + 1) m ts h.1 in
    let last = Rising-end (t + 1) m ts h.1 in
    Within-append n m (back ts) (t ∷ [])
      (Within-weaken (t + 1) n m m (back ts) (omega (arith, h.0)) (omega arith) later)
      (h.0, omega (arith, last), tt)

pub record Prepared (l : Ledger) (ts : List ℕ) (l' : Ledger) : Type 0 where
  pub held : l'.held ≡ back ts ++ l.held
  pub rising : Rising l.next ts l'.next

or_null-Balanced :
    (l l1 : Ledger) (v : Option ℕ)
    → Balanced l (tokens v) l1
    → Balanced l ((or_null v l1).0 ∷ []) (or_null v l1).1
unfolding or_null acquire
or_null-Balanced l l1 (some t) b = b
or_null-Balanced l l1 none b = record {
  held = ap (λ us. l1.next ∷ us) b.held;
  fresh = (b.grows, omega arith, tt);
  grows = omega (arith, b.grows);
}

pub build_args-Prepared :
    {D : Type 0} (ns : List (Native D)) (l : Ledger)
    → (ts : List ℕ) × (l' : Ledger) × (build_args ns l ≡ some (ts, l')) × Prepared l ts l'
unfolding build_args
build_args-Prepared [] l = ([], l, refl, record { held = refl; rising = omega arith })
build_args-Prepared (n ∷ ns) l =
    let (v, l1, e, made) = build-Makes n l in
    let one = or_null-Balanced l l1 v made in
    let (t, l2) = or_null v l1 in
    let (ts, l3, e', rest) = build_args-Prepared ns l2 in
    (
      t ∷ ts,
      l3,
      rw (e, e') refl,
      record {
        held = rest.held ∙ rw one.held (sym (append_assoc (back ts) (t ∷ []) l.held));
        rising = (
          one.fresh.0,
          Rising-weaken l2.next (t + 1) l3.next ts (omega (arith, one.fresh.1)) rest.rising,
        );
      },
    )

pub release_all-Prepared :
    (ts pre base : List ℕ) (l : Ledger) (n m m' : ℕ)
    → l.held ≡ pre ++ (back ts ++ base)
    → Rising n ts m
    → Within m m' pre
    → (l' : Ledger) × (release_all ts l ≡ some l') × (l'.held ≡ pre ++ base) × (l'.next ≡ l.next)
unfolding release_all free_reference
release_all-Prepared [] pre base l n m m' held rising fresh = (l, refl, held, refl)
release_all-Prepared (t ∷ ts) pre base l n m m' held rising fresh =
    let up = Rising-end (t + 1) m ts rising.1 in
    let newer : Within (t + 1) (m + m') (pre ++ back ts) =
      Within-append (t + 1) (m + m') pre (back ts)
        (Within-weaken m (t + 1) m' (m + m') pre up (omega arith) fresh)
        (Within-weaken (t + 1) (t + 1) m (m + m') (back ts) (omega arith) (omega arith)
          (back-Within (t + 1) m ts rising.1)) in
    let found : l.held ≡ (pre ++ back ts) ++ t ∷ base =
      held
      ∙ rw (append_assoc (back ts) (t ∷ []) base) (sym (append_assoc pre (back ts) (t ∷ base))) in
    let (l', e, left, same) =
      release_all-Prepared ts pre base (record l { held = (pre ++ back ts) ++ base }) (t + 1) m m'
        (append_assoc pre (back ts) base) rising.1 fresh in
    (l', rw (found, remove-Within t (m + m') (pre ++ back ts) base newer) e, left, same)

-- After the call, the arguments are given back, and then the result.
pub give_back :
    (l l1 l3 : Ledger) (ts hs : List ℕ)
    → Prepared l ts l1
    → Balanced (acquire l1).1 hs l3
    → (l4 : Ledger) × (l5 : Ledger) × (release_all ts l3 ≡ some l4)
      × (free_reference l1.next l4 ≡ some l5)
      × Balanced l hs l5
unfolding acquire free_reference
give_back l l1 l3 ts hs made b =
    let t = l1.next in
    let up = Rising-end l.next t ts made.rising in
    let pre = hs ++ t ∷ [] in
    let fresh : Within t l3.next pre =
      Within-append t l3.next hs (t ∷ [])
        (Within-weaken (t + 1) t l3.next l3.next hs (omega arith) (omega arith) b.fresh)
        (omega arith, omega (arith, b.grows), tt) in
    let held : l3.held ≡ pre ++ (back ts ++ l.held) =
      b.held ∙ rw made.held (sym (append_assoc hs (t ∷ []) (back ts ++ l.held))) in
    let (l4, e, left, same) =
      release_all-Prepared ts pre l.held l3 l.next t l3.next held made.rising fresh in
    let found : l4.held ≡ hs ++ t ∷ l.held = left ∙ append_assoc hs (t ∷ []) l.held in
    (
      l4,
      record l4 { held = hs ++ l.held },
      e,
      rw (found, remove-Within t l3.next hs l.held b.fresh) refl,
      record {
        held = refl;
        fresh =
            Within-weaken (t + 1) l.next l3.next l4.next hs (omega (arith, up))
              (omega (arith, same)) b.fresh;
        grows = omega (arith, same, b.grows, up);
      },
    )
