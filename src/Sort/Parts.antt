-- ===== src/Sort/Parts.antt =====
-- The partition of `rqsort` by keys: what lies left of `pi` and right of `pj`, and at both ends the
-- elements that are equal to the pivot, which stands at `ptr`.
pub mod Down
pub mod Whole
use substrata_swift.Prelude.{
  ℕ, zero, suc, ◌+◌, ◌-◌, ◌<◌, ◌≤◌, ◌≡◌, ◌≢◌, refl, sym, ◌∙◌, arith, ltb, leb,
}
use substrata_swift.Prelude.{
  true, false, Option, some, ◌>>=◌, List, length, Bool-cases, inl, inr, ◌⊎◌, ◌==◌, ==_iff,
}
use Prim.Native.Nat.{Ordering}
use substrata_swift.Sort.{swap, scan_up}
use substrata_swift.Sort.Keys.{Keyed, key_at, Swapped, swap-Swapped, Compares, order_keys}
use substrata_swift.Sort.Heaps.{Moved, Moved-refl, Moved-trans, Swapped-Moved}

module _ {ℓ} {A : Type ℓ} (key : A → ℕ) (ptr top : ℕ) where
  pub record Parts (v plt pi pj pgt : ℕ) (xs : List A) : Type 0 where
    pub left : (k : ℕ) → ptr ≤ k → k < plt → key_at key xs k ≡ v
    pub less : (k : ℕ) → plt ≤ k → k < pi → key_at key xs k < v
    pub more : (k : ℕ) → pj ≤ k → k < pgt → v < key_at key xs k
    pub right : (k : ℕ) → pgt ≤ k → k < top → key_at key xs k ≡ v

  pub key_after :
      (i j : ℕ) (xs ys : List A)
      → Swapped key xs i j ys
      → (k : ℕ)
      → ((k ≡ i) × (key_at key ys k ≡ key_at key xs j))
        ⊎ ((k ≡ j) × (key_at key ys k ≡ key_at key xs i))
        ⊎ ((k ≢ i) × (k ≢ j) × (key_at key ys k ≡ key_at key xs k))
  key_after i j xs ys s k = ground (arith, s.first, s.second, s.others k, ==_iff k i, ==_iff k j)

  pub exchanged :
      (i j : ℕ) (xs ys : List A)
      → ptr ≤ i
      → i < top
      → ptr ≤ j
      → j < top
      → Swapped key xs i j ys
      → Moved key ptr (top - ptr) xs ys
  exchanged i j xs ys a b c d s =
      let ei : ptr + (i - ptr) ≡ i = omega arith in
      let ej : ptr + (j - ptr) ≡ j = omega arith in
      Swapped-Moved key ptr (top - ptr) (i - ptr) (j - ptr) xs ys (omega arith) (omega arith)
        (rw (ei, ej) s)

  module _ (cmp : A → A → Ordering) (keyed : Keyed cmp key) where
    abbrev pub Up : ℕ → List A → ℕ → ℕ → ℕ → ℕ → Option (List A × ℕ × ℕ) → Type ℓ
    Up v xs plt pi pj pgt r =
        (ys : List A) × (p : ℕ) × (i : ℕ) × (r ≡ some (ys, p, i))
        × Parts v p i pj pgt ys
        × Moved key ptr (top - ptr) xs ys
        × ((i ≡ pj) ⊎ (v < key_at key ys i))
        × (plt ≤ p)
        × (p ≤ i)
        × (pi ≤ i)
        × (i ≤ pj)

    pub scan_up-Parts :
        (fuel v : ℕ) (xs : List A) (plt pi pj pgt : ℕ)
        → ptr < plt
        → plt ≤ pi
        → pi ≤ pj
        → pj ≤ pgt
        → pgt ≤ top
        → top ≤ length xs
        → pj < pi + fuel
        → Parts v plt pi pj pgt xs
        → Up v xs plt pi pj pgt (scan_up cmp fuel xs ptr plt pi pj)
    unfolding scan_up
    scan_up-Parts zero v xs plt pi pj pgt a b c d d' room e parts = absurd (omega arith)
    scan_up-Parts (suc fuel) v xs plt pi pj pgt a b c d d' room e parts =
        elim (Bool-cases (ltb pi pj)) [
          | inr done ↦
              rw (done, scan_up)
                (
                  xs,
                  plt,
                  pi,
                  refl,
                  parts,
                  Moved-refl key ptr (top - ptr) xs,
                  inl (ground arith),
                  omega arith,
                  b,
                  omega arith,
                  c,
                )
          | inl more ↦
              (let (o, eo, said) =
                  order_keys key cmp keyed xs ptr pi (omega arith) (ground arith) in
                rw (more, scan_up, eo)
                  (turn (ground arith)
                    (λ ys p a' b' c' r' parts'.
                      scan_up-Parts fuel v ys p (pi + 1) pj pgt a' b' c' d d' r' (omega arith)
                        parts')
                    o said))
        ]
      where
        turn :
            pi < pj
            → ((ys : List A) (p : ℕ)
                → ptr < p
                → p ≤ pi + 1
                → pi + 1 ≤ pj
                → top ≤ length ys
                → Parts v p (pi + 1) pj pgt ys
                → Up v ys p (pi + 1) pj pgt (scan_up cmp fuel ys ptr p (pi + 1) pj))
            → (o : Ordering) → Compares key cmp keyed o (key_at key xs ptr) (key_at key xs pi)
            → Up v xs plt pi pj pgt (elim o as (λ t. Option (List A × ℕ × ℕ)) [
              | Ordering.lt ↦ some (xs, plt, pi)
              | Ordering.eq ↦
                  swap xs plt pi >>= λ xs'. scan_up cmp fuel xs' ptr (plt + 1) (pi + 1) pj
              | Ordering.gt ↦ scan_up cmp fuel xs ptr plt (pi + 1) pj
            ])
        turn i again Ordering.lt said = (
          xs,
          plt,
          pi,
          refl,
          parts,
          Moved-refl key ptr (top - ptr) xs,
          inr (omega (arith, said, parts.left ptr (omega arith) a)),
          omega arith,
          b,
          omega arith,
          c,
        )
        turn i again Ordering.eq said =
            let (ys, e1, s) = swap-Swapped key xs plt pi (omega arith) (omega arith) in
            let new = key_after plt pi xs ys s in
            let pivot = parts.left ptr (omega arith) a in
            let (zs, p, j, e2, parts', t, stop, l, m, n, k) =
              again ys (plt + 1) (omega arith) (omega arith) (omega arith) (omega (arith, s.same.0))
                (record {
                  left = λ k lo hi. ground (arith, new k, parts.left k, pivot, said);
                  less =
                      λ k lo hi. ground (arith, new k, parts.less k, parts.less plt, ==_iff plt pi);
                  more = λ k lo hi. ground (arith, new k, parts.more k);
                  right = λ k lo hi. ground (arith, new k, parts.right k);
                }) in
            (
              zs,
              p,
              j,
              rw e1 e2,
              parts',
              Moved-trans key ptr (top - ptr) xs ys zs
                  (exchanged plt pi xs ys (omega arith) (omega arith) (omega arith) (omega arith) s)
                  t,
              stop,
              omega arith,
              m,
              omega arith,
              k,
            )
        turn i again Ordering.gt said =
            let pivot = parts.left ptr (omega arith) a in
            let (zs, p, j, e2, parts', t, stop, l, m, n, k) =
              again xs plt a (omega arith) (omega arith) room (record {
                left = parts.left;
                less = λ k lo hi. ground (arith, parts.less k, said, pivot, ==_iff k pi);
                more = parts.more;
                right = parts.right;
              }) in
            (zs, p, j, e2, parts', t, stop, l, m, omega arith, k)
