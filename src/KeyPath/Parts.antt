-- ===== src/KeyPath/Parts.antt =====
-- `setValue` splits a key path at its last dot.
use substrata_swift.Prelude.{ℕ, ◌≡◌, ◌≢◌, ◌⊎◌, inl, inr, refl, ap, ◌∙◌, arith}
use substrata_swift.Prelude.{some, List, [], ◌∷◌, ◌++◌, All}
use substrata_swift.Prelude.{==_iff}
use mathlib.Core.List.{append_assoc}
use substrata_swift.KeyPath.{
  Str, dot, components, remove_last, joined, Target, global, evaluated, target, set_value,
}

abbrev pub NoDot : Str → Type 0
NoDot = All (λ c. c ≢ dot)

-- The path is the name alone, or nothing or a script, a dot and the name.
abbrev pub IsSplit : Str → Target → Str → Type 0
IsSplit path global last = (path ≡ last) ⊎ (path ≡ dot ∷ last)
IsSplit path (evaluated script) last = (script ≢ []) × (path ≡ script ++ (dot ∷ last))

joined-cons :
    (c : ℕ) (first : Str) (rest : List Str)
    → joined ((c ∷ first) ∷ rest) ≡ c ∷ joined (first ∷ rest)
unfolding joined
joined-cons c first [] = refl
joined-cons c first (next ∷ rest) = refl

joined-components : (path : Str) → joined ((components path).0 ∷ (components path).1) ≡ path
unfolding components joined
joined-components [] = refl
joined-components (c ∷ path) = ground (
  arith,
  joined-components path,
  ==_iff c dot,
  joined-cons c (components path).0 (components path).1,
)

components-NoDot : (path : Str) → NoDot (components path).0 × All NoDot (components path).1
unfolding components
components-NoDot [] = (tt, tt)
components-NoDot (c ∷ path) = ground (arith, components-NoDot path, ==_iff c dot)

-- `last` is a component, and joining the components before it and then it gives all of them.
unfoldable joined_last : List Str → Str → Str
joined_last [] last = last
joined_last (p ∷ ps) last = joined (p ∷ ps) ++ (dot ∷ last)

joined_last-cons :
    (p : Str) (ps : List Str) (last : Str)
    → joined_last (p ∷ ps) last ≡ p ++ (dot ∷ joined_last ps last)
unfolding joined_last joined
joined_last-cons p [] last = refl
joined_last-cons p (q ∷ ps) last = append_assoc p (dot ∷ joined (q ∷ ps)) (dot ∷ last)

remove_last-joined :
    (first : Str) (rest : List Str)
    → joined_last (remove_last first rest).0 (remove_last first rest).1 ≡ joined (first ∷ rest)
unfolding remove_last joined joined_last
remove_last-joined first [] = refl
remove_last-joined first (next ∷ rest) =
    joined_last-cons first (remove_last next rest).0 (remove_last next rest).1
    ∙ ap (λ t. first ++ (dot ∷ t)) (remove_last-joined next rest)

remove_last-NoDot :
    (first : Str) (rest : List Str)
    → NoDot first
    → All NoDot rest
    → NoDot (remove_last first rest).1
unfolding remove_last
remove_last-NoDot first [] h hs = h
remove_last-NoDot first (next ∷ rest) h hs = remove_last-NoDot next rest hs.0 hs.1

split : (s last : Str) → IsSplit (s ++ (dot ∷ last)) (target s) last
unfolding target
split [] last = inr refl
split (x ∷ s) last = (λ e. cc, refl)

joined_last-IsSplit :
    (before : List Str) (last : Str)
    → IsSplit (joined_last before last) (target (joined before)) last
unfolding joined_last target joined
joined_last-IsSplit [] last = inl refl
joined_last-IsSplit (p ∷ ps) last = split (joined (p ∷ ps)) last

-- For a key path that is not empty, `setValue` goes to one object and property: the name has no dot,
-- and it is the whole path, or what follows the last dot, with the script before that dot.
pub set_value-IsSplit :
    (path : Str)
    → path ≢ []
    → (t : Target) × (last : Str) × (set_value path ≡ some (t, last))
      × NoDot last
      × IsSplit path t last
unfolding set_value
set_value-IsSplit [] some_part = absurd (some_part refl)
set_value-IsSplit (c ∷ path) some_part =
    let parts = components (c ∷ path) in
    let ends = remove_last parts.0 parts.1 in
    let free = components-NoDot (c ∷ path) in
    let whole : joined_last ends.0 ends.1 ≡ c ∷ path =
      remove_last-joined parts.0 parts.1 ∙ joined-components (c ∷ path) in
    let cut = joined_last-IsSplit ends.0 ends.1 in
    (
      target (joined ends.0),
      ends.1,
      refl,
      remove_last-NoDot parts.0 parts.1 free.0 free.1,
      rw whole at cut,
    )
