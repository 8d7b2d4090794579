-- ===== src/Sort/Parts/Down.antt =====
-- The scan of `rqsort` from the right, by keys.
use substrata_swift.Prelude.{ℕ, zero, suc, ◌+◌, ◌-◌, ◌<◌, ◌≤◌, ◌≡◌, refl, ◌∙◌, arith, ltb}
use substrata_swift.Prelude.{Option, some, ◌>>=◌, List, length, Bool-cases, inl, inr, ◌⊎◌, ==_iff}
use Prim.Native.Nat.{Ordering}
use substrata_swift.Sort.{swap, scan_down}
use substrata_swift.Sort.Keys.{Keyed, key_at, swap-Swapped, Compares, order_keys}
use substrata_swift.Sort.Heaps.{Moved, Moved-refl, Moved-trans}
use substrata_swift.Sort.Parts.{Parts, key_after, exchanged}

module _ {ℓ} {A : Type ℓ} (key : A → ℕ) (ptr top : ℕ) (cmp : A → A → Ordering)
    (keyed : Keyed cmp key) where
  abbrev pub Down : ℕ → List A → ℕ → ℕ → ℕ → ℕ → Option (List A × ℕ × ℕ) → Type ℓ
  Down v xs plt pi pj pgt r =
      (ys : List A) × (j : ℕ) × (g : ℕ) × (r ≡ some (ys, j, g))
      × Parts key ptr top v plt pi (j + 1) g ys
      × Moved key ptr (top - ptr) xs ys
      × ((j ≤ pi) ⊎ (key_at key ys j < v))
      × (key_at key ys pi ≡ key_at key xs pi)
      × (pi ≤ j + 1)
      × (j < pj)
      × (j < g)
      × (g ≤ pgt)

  pub scan_down-Parts :
      (fuel v : ℕ) (xs : List A) (plt pi pj pgt : ℕ)
      → ptr < plt
      → plt ≤ pi
      → pi ≤ pj
      → pj ≤ pgt
      → pgt ≤ top
      → top ≤ length xs
      → pj < pi + fuel
      → Parts key ptr top v plt pi pj pgt xs
      → Down v xs plt pi pj pgt (scan_down cmp fuel xs ptr pi pj pgt)
  unfolding scan_down
  scan_down-Parts zero v xs plt pi pj pgt a b c d d' room e parts = absurd (omega arith)
  scan_down-Parts (suc fuel) v xs plt pi pj pgt a b c d d' room e parts =
      elim (Bool-cases (ltb pi (pj - 1))) [
        | inr done ↦
            (let back : pj - 1 + 1 ≡ pj = omega arith in
              rw (done, scan_down)
                (
                  xs,
                  pj - 1,
                  pgt,
                  refl,
                  rw back parts,
                  Moved-refl key ptr (top - ptr) xs,
                  inl (ground arith),
                  refl,
                  omega arith,
                  omega arith,
                  omega arith,
                  omega arith,
                ))
        | inl more ↦
            (let (o, eo, said) =
                order_keys key cmp keyed xs ptr (pj - 1) (omega arith) (omega arith) in
              rw (more, scan_down, eo)
                (turn (ground arith)
                  (λ ys g c' d1 d2 r' parts'.
                    scan_down-Parts fuel v ys plt pi (pj - 1) g a b c' d1 d2 r' (omega arith)
                      parts')
                  o said))
      ]
    where
      turn :
          pi < pj - 1
          → ((ys : List A) (g : ℕ)
              → pi ≤ pj - 1
              → pj - 1 ≤ g
              → g ≤ top
              → top ≤ length ys
              → Parts key ptr top v plt pi (pj - 1) g ys
              → Down v ys plt pi (pj - 1) g (scan_down cmp fuel ys ptr pi (pj - 1) g))
          → (o : Ordering) → Compares key cmp keyed o (key_at key xs ptr) (key_at key xs (pj - 1))
          → Down v xs plt pi pj pgt (elim o as (λ t. Option (List A × ℕ × ℕ)) [
            | Ordering.gt ↦ some (xs, pj - 1, pgt)
            | Ordering.eq ↦ swap xs (pgt - 1) (pj - 1) >>= λ xs'.
                scan_down cmp fuel xs' ptr pi (pj - 1) (pgt - 1)
            | Ordering.lt ↦ scan_down cmp fuel xs ptr pi (pj - 1) pgt
          ])
      turn i again Ordering.gt said =
          let back : pj - 1 + 1 ≡ pj = omega arith in
          (
            xs,
            pj - 1,
            pgt,
            refl,
            rw back parts,
            Moved-refl key ptr (top - ptr) xs,
            inr (omega (arith, said, parts.left ptr (omega arith) a)),
            refl,
            omega arith,
            omega arith,
            omega arith,
            omega arith,
          )
      turn i again Ordering.eq said =
          let (ys, e1, s) = swap-Swapped key xs (pgt - 1) (pj - 1) (omega arith) (omega arith) in
          let new = key_after key ptr top (pgt - 1) (pj - 1) xs ys s in
          let pivot = parts.left ptr (omega arith) a in
          let (zs, j, g, e2, parts', t, stop, kept, l, m, n, k) =
            again ys (pgt - 1) (omega arith) (omega arith) (omega arith) (omega (arith, s.same.0))
              (record {
                left = λ k lo hi. ground (arith, new k, parts.left k);
                less = λ k lo hi. ground (arith, new k, parts.less k);
                more = λ k lo hi.
                    ground
                      (arith, new k, parts.more k, parts.more (pgt - 1), ==_iff (pgt - 1) (pj - 1));
                right = λ k lo hi. ground (arith, new k, parts.right k, pivot, said);
              }) in
          (
            zs,
            j,
            g,
            rw e1 e2,
            parts',
            Moved-trans key ptr (top - ptr) xs ys zs
                (exchanged key ptr top (pgt - 1) (pj - 1) xs ys (omega arith) (omega arith)
                  (omega arith) (omega arith) s)
                t,
            stop,
            kept ∙ s.others pi (λ e. absurd (omega arith)) (λ e. absurd (omega arith)),
            l,
            omega arith,
            n,
            omega arith,
          )
      turn i again Ordering.lt said =
          let pivot = parts.left ptr (omega arith) a in
          let (zs, j, g, e2, parts', t, stop, kept, l, m, n, k) =
            again xs pgt (omega arith) (omega arith) d' room (record {
              left = parts.left;
              less = parts.less;
              more = λ k lo hi. ground (arith, parts.more k, said, pivot, ==_iff k (pj - 1));
              right = parts.right;
            }) in
          (zs, j, g, e2, parts', t, stop, kept, l, omega arith, n, k)
