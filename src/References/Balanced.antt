-- ===== src/References/Balanced.antt =====
-- What an operation holds in the end: the references of the handles that it made, each a new one, and
-- all that was held before.
use substrata_swift.Prelude.{ℕ, ◌+◌, ◌≤◌, ◌<◌, ◌≡◌, refl, sym, ◌∙◌, arith, ==_iff, some}
use substrata_swift.Prelude.{List, [], ◌∷◌, ◌++◌}
use mathlib.Core.List.{append_assoc}
use substrata_swift.References.{
  Ledger, Action, acquire, free_reference, remove, nothing, both, with_value, keep, dropped,
  give_back_all,
}

-- Each reference has a number from the first on and below the second.
abbrev pub Within : ℕ → ℕ → List ℕ → Type 0
Within n m [] = Unit
Within n m (t ∷ ts) = (n ≤ t) × (t < m) × Within n m ts

pub record Balanced (l : Ledger) (hs : List ℕ) (l' : Ledger) : Type 0 where
  pub held : l'.held ≡ hs ++ l.held
  pub fresh : Within l.next l'.next hs
  pub grows : l.next ≤ l'.next

-- The action gives nothing back twice, and leaves only its handles.
abbrev pub IsBalanced : Action → Type 0
IsBalanced m =
    (l : Ledger) → (hs : List ℕ) × (l' : Ledger) × (m l ≡ some (hs, l')) × Balanced l hs l'

pub Within-weaken :
    (n n' m m' : ℕ) (ts : List ℕ) → n' ≤ n → m ≤ m' → Within n m ts → Within n' m' ts
Within-weaken n n' m m' [] le le' h = tt
Within-weaken n n' m m' (t ∷ ts) le le' h =
    (omega (arith, le, h.0), omega (arith, le', h.1), Within-weaken n n' m m' ts le le' h.2)

pub Within-append :
    (n m : ℕ) (ts us : List ℕ) → Within n m ts → Within n m us → Within n m (ts ++ us)
Within-append n m [] us h h' = h'
Within-append n m (t ∷ ts) us h h' = (h.0, h.1, Within-append n m ts us h.2 h')

-- A reference is found behind newer ones.
pub remove-Within :
    (t m : ℕ) (ts us : List ℕ) → Within (t + 1) m ts → remove t (ts ++ t ∷ us) ≡ some (ts ++ us)
unfolding remove
remove-Within t m [] us h = ground (arith, ==_iff t t)
remove-Within t m (u ∷ ts) us h = ground (arith, ==_iff u t, remove-Within t m ts us h.2)

pub Balanced-then :
    (l l' l'' : Ledger) (hs hs' : List ℕ)
    → Balanced l hs l'
    → Balanced l' hs' l''
    → Balanced l (hs' ++ hs) l''
Balanced-then l l' l'' hs hs' b b' = record {
  held = b'.held ∙ rw b.held (sym (append_assoc hs' hs l.held));
  fresh =
      Within-append l.next l''.next hs' hs
        (Within-weaken l'.next l.next l''.next l''.next hs' b.grows (omega arith) b'.fresh)
        (Within-weaken l.next l.next l'.next l''.next hs (omega arith) b'.grows b.fresh);
  grows = omega (arith, b.grows, b'.grows);
}

pub keep-IsBalanced : IsBalanced keep
unfolding keep acquire
keep-IsBalanced l = (
  l.next ∷ [],
  (acquire l).1,
  refl,
  record { held = refl; fresh = (omega arith, omega arith, tt); grows = omega arith },
)

pub both-IsBalanced : (m m' : Action) → IsBalanced m → IsBalanced m' → IsBalanced (both m m')
unfolding both
both-IsBalanced m m' b b' l =
    let (hs, l1, e, first) = b l in
    let (hs', l2, e', second) = b' l1 in
    (hs' ++ hs, l2, rw (e, e') refl, Balanced-then l l1 l2 hs hs' first second)

-- What is acquired first and released last is not held in the end.
pub free_reference-Balanced :
    (l l2 : Ledger) (hs : List ℕ)
    → Balanced (acquire l).1 hs l2
    → (l3 : Ledger) × (free_reference l.next l2 ≡ some l3) × Balanced l hs l3
unfolding acquire free_reference
free_reference-Balanced l l2 hs b = (
  record l2 { held = hs ++ l.held },
  rw (b.held, remove-Within l.next l2.next hs l.held b.fresh) refl,
  record {
    held = refl;
    fresh =
        Within-weaken (l.next + 1) l.next l2.next l2.next hs (omega arith) (omega arith) b.fresh;
    grows = omega (arith, b.grows);
  },
)

pub with_value-IsBalanced : (m : Action) → IsBalanced m → IsBalanced (with_value m)
unfolding with_value
with_value-IsBalanced m b l =
    let (hs, l2, e, inner) = b (acquire l).1 in
    let (l3, e', outer) = free_reference-Balanced l l2 hs inner in (hs, l3, rw (e, e') refl, outer)

-- An action that leaves no handle.
abbrev pub IsQuiet : Action → Type 0
IsQuiet m = (l : Ledger) → (l' : Ledger) × (m l ≡ some ([], l')) × Balanced l [] l'

pub IsQuiet-IsBalanced : (m : Action) → IsQuiet m → IsBalanced m
IsQuiet-IsBalanced m q l = let (l', e, b) = q l in ([], l', e, b)

pub nothing-IsQuiet : IsQuiet nothing
unfolding nothing
nothing-IsQuiet l = (l, refl, record { held = refl; fresh = tt; grows = omega arith })

pub both-IsQuiet : (m m' : Action) → IsQuiet m → IsQuiet m' → IsQuiet (both m m')
unfolding both
both-IsQuiet m m' q q' l =
    let (l1, e, first) = q l in
    let (l2, e', second) = q' l1 in (l2, rw (e, e') refl, Balanced-then l l1 l2 [] [] first second)

pub with_value-IsQuiet : (m : Action) → IsQuiet m → IsQuiet (with_value m)
unfolding with_value
with_value-IsQuiet m q l =
    let (l2, e, inner) = q (acquire l).1 in
    let (l3, e', outer) = free_reference-Balanced l l2 [] inner in (l3, rw (e, e') refl, outer)

pub nothing-IsBalanced : IsBalanced nothing
nothing-IsBalanced = IsQuiet-IsBalanced nothing nothing-IsQuiet

-- What was made last is given back first.
pub give_back_all-held :
    (hs base : List ℕ) (l : Ledger)
    → l.held ≡ hs ++ base
    → (l' : Ledger) × (give_back_all hs l ≡ some l') × (l'.held ≡ base) × (l'.next ≡ l.next)
unfolding give_back_all free_reference
give_back_all-held [] base l held = (l, refl, held, refl)
give_back_all-held (t ∷ ts) base l held =
    let (l', e, left, same) = give_back_all-held ts base (record l { held = ts ++ base }) refl in
    (l', rw (held, remove-Within t t [] (ts ++ base) tt) e, left, same)

pub dropped-IsQuiet : (m : Action) → IsBalanced m → IsQuiet (dropped m)
unfolding dropped
dropped-IsQuiet m b l =
    let (hs, l1, e, made) = b l in
    let (l2, e', left, same) = give_back_all-held hs l.held l1 made.held in
    (
      l2,
      rw (e, e') refl,
      record { held = left; fresh = tt; grows = omega (arith, same, made.grows) },
    )
