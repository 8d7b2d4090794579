-- ===== src/KeyPath/Tests.antt =====
-- The theorems on key paths at concrete paths.
use substrata_swift.Prelude.{◌≡◌, refl, some, [], ◌∷◌}
use substrata_swift.KeyPath.{Str, dot, components, remove_last, joined, target, Target, global}
use substrata_swift.KeyPath.{evaluated, set_value}
use substrata_swift.KeyPath.Parts.{NoDot, IsSplit, set_value-IsSplit}

-- "a.b.c" sets the property "c" of what "a.b" evaluates to.
three_names :
    set_value (97 ∷ dot ∷ 98 ∷ dot ∷ 99 ∷ []) ≡ some (evaluated (97 ∷ dot ∷ 98 ∷ []), 99 ∷ [])
unfolding set_value components remove_last joined target
three_names = refl

-- "a" and ".a" both set the property "a" of the global object.
leading_dot :
    (set_value (97 ∷ []) ≡ some (global, 97 ∷ []))
    × (set_value (dot ∷ 97 ∷ []) ≡ some (global, 97 ∷ []))
unfolding set_value components remove_last joined target
leading_dot = (refl, refl)

set_value-IsSplit_example :
    (t : Target) × (last : Str) × (set_value (97 ∷ dot ∷ 98 ∷ []) ≡ some (t, last))
    × NoDot last
    × IsSplit (97 ∷ dot ∷ 98 ∷ []) t last
set_value-IsSplit_example = set_value-IsSplit (97 ∷ dot ∷ 98 ∷ []) (λ e. cc)
