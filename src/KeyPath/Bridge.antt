-- ===== src/KeyPath/Bridge.antt =====
-- The texts of the data bridge: what it has evaluated begins with its own name.
use substrata_swift.Prelude.{ℕ, ◌≡◌, ◌≢◌, ◌⊎◌, inl, inr, refl, sym, ap, ◌∙◌, arith, true, false}
use substrata_swift.Prelude.{none, some, [], ◌∷◌, ◌++◌, drop}
use substrata_swift.KeyPath.{Str, dot, Target, global, evaluated, value, bridge_key, bridge_path}
use substrata_swift.KeyPath.{bridge_value, bridge_set_value}
use substrata_swift.KeyPath.Parts.{NoDot, IsSplit, set_value-IsSplit}

dot_inside : (k p last : Str) → NoDot last → last ≢ k ++ (dot ∷ p)
dot_inside [] p [] h e = cc
dot_inside [] p (x ∷ last) h e = absurd (h.0 (ground (arith, e)))
dot_inside (c ∷ k) p [] h e = cc
dot_inside (c ∷ k) p (x ∷ last) h e = dot_inside k p last h.1 (ground (arith, e))

-- Of two ways to split a string at a dot, that with a name without dots is not before the other.
last_dot :
    (k p s last : Str)
    → NoDot last
    → k ++ (dot ∷ p) ≡ s ++ (dot ∷ last)
    → (s ≡ k) ⊎ ((rest : Str) × (s ≡ k ++ (dot ∷ rest)))
last_dot [] p [] last h e = inl refl
last_dot [] p (x ∷ s) last h e = inr (s, ground (arith, e))
last_dot (c ∷ k) p [] last h e = absurd (dot_inside k p last h (ground (arith, e)))
last_dot (c ∷ k) p (x ∷ s) last h e = elim (last_dot k p s last h (ground (arith, e))) [
  | inl same ↦ inl (ground (arith, same, e))
  | inr (rest, longer) ↦ inr (rest, ground (arith, longer, e))
]

below_key :
    (c : ℕ) (k path last : Str) (t : Target)
    → c ≢ dot
    → NoDot last
    → IsSplit ((c ∷ k) ++ (dot ∷ path)) t last
    → (script : Str) × (t ≡ evaluated script)
      × ((c ∷ k) ++ (dot ∷ path) ≡ script ++ (dot ∷ last))
      × ((script ≡ c ∷ k) ⊎ ((rest : Str) × (script ≡ (c ∷ k) ++ (dot ∷ rest))))
below_key c k path last global d h (inl whole) = absurd (dot_inside (c ∷ k) path last h (sym whole))
below_key c k path last global d h (inr whole) = absurd (d (ground (arith, whole)))
below_key c k path last (evaluated script) d h split =
    (script, refl, split.1, last_dot (c ∷ k) path script last h split.1)

-- With an engine, the bridge sets the property behind the last dot on what a script gives whose text is
-- the name of the bridge, alone or followed by a dot and more, and reads by the script with that dot and
-- that property behind it. What a path that is no path of names makes of this is up to the engine.
-- Without an engine it does neither.
pub bridge_lem :
    (path : Str)
    → ((script : Str) × (last : Str) × (bridge_set_value true path ≡ some (evaluated script, last))
        × (bridge_value true path ≡ some (script ++ (dot ∷ last)))
        × ((script ≡ bridge_key) ⊎ ((rest : Str) × (script ≡ bridge_key ++ (dot ∷ rest)))))
      × (bridge_set_value false path ≡ none)
      × (bridge_value false path ≡ none)
unfolding bridge_set_value bridge_value bridge_path value
bridge_lem path =
    let (t, last, e, h, split) = set_value-IsSplit (bridge_key ++ (dot ∷ path)) (λ e. cc) in
    let (script, same, whole, below) =
      below_key 100 (drop 1 bridge_key) path last t (λ e. ground (arith, e)) h split in
    ((script, last, e ∙ ap (λ u. some (u, last)) same, ap some whole, below), refl, refl)
