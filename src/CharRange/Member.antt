-- ===== src/CharRange/Member.antt =====
-- Which code points a list of range points stands for.
use substrata_swift.Prelude.{
  ℕ, suc, ◌≤◌, ◌<◌, ◌≡◌, refl, arith, ltb, leb, ap, Bool, true, false, not, xor,
}
use substrata_swift.Prelude.{◌&&◌, ◌||◌, List, [], ◌∷◌, ◌++◌, length}
use substrata_swift.CharRange.{odd}

-- The points below a code point toggle it in and out.
unfoldable pub inside : ℕ → List ℕ → Bool
inside x [] = false
inside x (p ∷ ps) = xor (leb p x) (inside x ps)

-- Points in ascending order, all at least `lo`.
abbrev pub Ascending : ℕ → List ℕ → Type 0
Ascending lo [] = Unit
Ascending lo (p ∷ ps) = (lo ≤ p) × Ascending p ps

-- The same with no point twice.
abbrev pub Strict : ℕ → List ℕ → Type 0
Strict lo [] = Unit
Strict lo (p ∷ ps) = (lo ≤ p) × Strict (suc p) ps

-- The intervals `[p, q)` of consecutive pairs of points.
unfoldable pub in_intervals : ℕ → List ℕ → Bool
in_intervals x [] = false
in_intervals x (p ∷ []) = false
in_intervals x (p ∷ q ∷ ps) = (leb p x && ltb x q) || in_intervals x ps

pub inside_below : (x lo : ℕ) (ps : List ℕ) → Ascending lo ps → x < lo → inside x ps ≡ false
unfolding inside
inside_below x lo [] h k = refl
inside_below x lo (p ∷ ps) h k = ground (arith, inside_below x p ps h.1)

pub odd-suc : (n : ℕ) → odd (suc n) ≡ not (odd n)
unfolding odd
odd-suc n = ground arith

pair_toggles :
    (x p q : ℕ) (i : Bool)
    → p ≤ q
    → (x < q → i ≡ false)
    → xor (leb p x) (xor (leb q x) i) ≡ ((leb p x && ltb x q) || i)
pair_toggles x p q true h k = ground arith
pair_toggles x p q false h k = ground arith

-- For points in ascending order, an even number of them, toggling is lying in an interval.
pub inside-in_intervals :
    (x lo : ℕ) (ps : List ℕ)
    → Ascending lo ps
    → odd (length ps) ≡ false
    → inside x ps ≡ in_intervals x ps
unfolding inside in_intervals
inside-in_intervals x lo [] h e = refl
inside-in_intervals x lo (p ∷ []) h e = unfold odd in ground arith
inside-in_intervals x lo (p ∷ q ∷ ps) h e =
    rw (pair_toggles x p q (inside x ps) h.1.0 (inside_below x q ps h.1.1)) (
      ap (λ i. (leb p x && ltb x q) || i)
        (inside-in_intervals x q ps h.1.1
          (ground (arith, odd-suc (suc (length ps)), odd-suc (length ps)))))

pub inside-append : (x : ℕ) (ps qs : List ℕ) → inside x (ps ++ qs) ≡ xor (inside x ps) (inside x qs)
unfolding inside
inside-append x [] qs = ground arith
inside-append x (p ∷ ps) qs = ground (arith, inside-append x ps qs)
