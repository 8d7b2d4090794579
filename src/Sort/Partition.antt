-- ===== src/Sort/Partition.antt =====
-- The partition of `rqsort` ends inside of its segment, and keeps the elements.
use substrata_swift.Prelude.{ℕ, zero, suc, ◌+◌, ◌-◌, ◌<◌, ◌≤◌, ◌≡◌, refl, ◌∙◌, arith, ltb, leb}
use substrata_swift.Prelude.{true, false, Option, some, ◌>>=◌, List, length, Bool-cases, inl, inr}
use Prim.Native.Nat.{Ordering}
use substrata_swift.Sort.{swap, scan_up, scan_down, partition}
use substrata_swift.Sort.Same.{Same, Same-refl, Same-trans, swap-Same, order_inside}

module _ {ℓ} {A : Type ℓ} (cmp : A → A → Ordering) where
  abbrev Up : List A → ℕ → ℕ → ℕ → Option (List A × ℕ × ℕ) → Type ℓ
  Up xs plt pi pj r =
      (ys : List A) × (p : ℕ) × (i : ℕ) × (r ≡ some (ys, p, i))
      × Same xs ys
      × (plt ≤ p)
      × (p ≤ i)
      × (pi ≤ i)
      × (i ≤ pj)

  scan_up-Up :
      (fuel : ℕ) (xs : List A) (ptr plt pi pj : ℕ)
      → ptr < length xs
      → plt ≤ pi
      → pi ≤ pj
      → pj ≤ length xs
      → pj < pi + fuel
      → Up xs plt pi pj (scan_up cmp fuel xs ptr plt pi pj)
  unfolding scan_up
  scan_up-Up zero xs ptr plt pi pj a b c d e = absurd (omega arith)
  scan_up-Up (suc fuel) xs ptr plt pi pj a b c d e = elim (Bool-cases (ltb pi pj)) [
    | inr done ↦
        rw (done, scan_up) (xs, plt, pi, refl, Same-refl xs, omega arith, b, omega arith, c)
    | inl more ↦
        (let (o, eo) = order_inside cmp xs ptr pi a (ground arith) in
          rw (more, scan_up, eo)
            (turn (ground arith)
              (λ ys p a' b' c' d'. scan_up-Up fuel ys ptr p (pi + 1) pj a' b' c' d' (omega arith))
              o))
  ]
    where
      turn :
          pi < pj
          → ((ys : List A) (p : ℕ)
              → ptr < length ys
              → p ≤ pi + 1
              → pi + 1 ≤ pj
              → pj ≤ length ys
              → Up ys p (pi + 1) pj (scan_up cmp fuel ys ptr p (pi + 1) pj))
          → (o : Ordering)
          → Up xs plt pi pj (elim o as (λ t. Option (List A × ℕ × ℕ)) [
            | Ordering.lt ↦ some (xs, plt, pi)
            | Ordering.eq ↦ swap xs plt pi >>= λ xs'. scan_up cmp fuel xs' ptr (plt + 1) (pi + 1) pj
            | Ordering.gt ↦ scan_up cmp fuel xs ptr plt (pi + 1) pj
          ])
      turn i again Ordering.lt = (xs, plt, pi, refl, Same-refl xs, omega arith, b, omega arith, c)
      turn i again Ordering.eq =
          let (ys, e1, s) = swap-Same xs plt pi (omega arith) (omega arith) in
          let (zs, p, j, e2, t, l, m, n, k) =
            again ys (plt + 1) (omega (arith, s.0)) (omega arith) (omega arith)
              (omega (arith, s.0)) in
          (zs, p, j, rw e1 e2, Same-trans xs ys zs s t, omega arith, m, omega arith, k)
      turn i again Ordering.gt =
          let (zs, p, j, e2, t, l, m, n, k) = again xs plt a (omega arith) (omega arith) d in
          (zs, p, j, e2, t, l, m, omega arith, k)

  abbrev Down : List A → ℕ → ℕ → ℕ → Option (List A × ℕ × ℕ) → Type ℓ
  Down xs pi pj pgt r =
      (ys : List A) × (j : ℕ) × (g : ℕ) × (r ≡ some (ys, j, g))
      × Same xs ys
      × (pi ≤ j + 1)
      × (j < pj)
      × (j < g)
      × (g ≤ pgt)

  scan_down-Down :
      (fuel : ℕ) (xs : List A) (ptr pi pj pgt : ℕ)
      → ptr < length xs
      → pi ≤ pj
      → 0 < pj
      → pj ≤ pgt
      → pgt ≤ length xs
      → pj < pi + fuel
      → Down xs pi pj pgt (scan_down cmp fuel xs ptr pi pj pgt)
  unfolding scan_down
  scan_down-Down zero xs ptr pi pj pgt a b c d e f = absurd (omega arith)
  scan_down-Down (suc fuel) xs ptr pi pj pgt a b c d e f = elim (Bool-cases (ltb pi (pj - 1))) [
    | inr done ↦
        rw (done, scan_down)
          (xs, pj - 1, pgt, refl, Same-refl xs, omega arith, omega arith, omega arith, omega arith)
    | inl more ↦
        (let (o, eo) = order_inside cmp xs ptr (pj - 1) a (omega arith) in
          rw (more, scan_down, eo)
            (turn (ground arith)
              (λ ys g a' b' c' d' e'.
                scan_down-Down fuel ys ptr pi (pj - 1) g a' b' c' d' e' (omega arith))
              o))
  ]
    where
      turn :
          pi < pj - 1
          → ((ys : List A) (g : ℕ)
              → ptr < length ys
              → pi ≤ pj - 1
              → 0 < pj - 1
              → pj - 1 ≤ g
              → g ≤ length ys
              → Down ys pi (pj - 1) g (scan_down cmp fuel ys ptr pi (pj - 1) g))
          → (o : Ordering)
          → Down xs pi pj pgt (elim o as (λ t. Option (List A × ℕ × ℕ)) [
            | Ordering.gt ↦ some (xs, pj - 1, pgt)
            | Ordering.eq ↦ swap xs (pgt - 1) (pj - 1) >>= λ xs'.
                scan_down cmp fuel xs' ptr pi (pj - 1) (pgt - 1)
            | Ordering.lt ↦ scan_down cmp fuel xs ptr pi (pj - 1) pgt
          ])
      turn i again Ordering.gt =
          (xs, pj - 1, pgt, refl, Same-refl xs, omega arith, omega arith, omega arith, omega arith)
      turn i again Ordering.eq =
          let (ys, e1, s) = swap-Same xs (pgt - 1) (pj - 1) (omega arith) (omega arith) in
          let (zs, j, g, e2, t, l, m, n, k) =
            again ys (pgt - 1) (omega (arith, s.0)) (omega arith) (omega arith) (omega arith)
              (omega (arith, s.0)) in
          (zs, j, g, rw e1 e2, Same-trans xs ys zs s t, l, omega arith, n, omega arith)
      turn i again Ordering.lt =
          let (zs, j, g, e2, t, l, m, n, k) =
            again xs pgt a (omega arith) (omega arith) (omega arith) e in
          (zs, j, g, e2, t, l, omega arith, n, k)

  abbrev pub Parted : List A → ℕ → ℕ → Option (List A × ℕ × ℕ × ℕ) → Type ℓ
  Parted xs plt pgt r =
      (ys : List A) × (l : ℕ) × (i : ℕ) × (g : ℕ) × (r ≡ some (ys, l, i, g))
      × Same xs ys
      × (plt ≤ l)
      × (l ≤ i)
      × (i ≤ g)
      × (g ≤ pgt)

  -- One round of the partition, by what its parts return.
  pub partition_round :
      (fuel : ℕ) (xs ys zs : List A) (ptr plt pi pj pgt p i j g : ℕ)
      → scan_up cmp (suc (pj - pi)) xs ptr plt pi pj ≡ some (ys, p, i)
      → scan_down cmp (suc (pj - i)) ys ptr i pj pgt ≡ some (zs, j, g)
      → partition cmp (suc fuel) xs ptr plt pi pj pgt
        ≡ elim (leb j i) as (λ b. Option (List A × ℕ × ℕ × ℕ)) [
          | true ↦ some (zs, p, i, g)
          | false ↦ swap zs i j >>= λ xs'. partition cmp fuel xs' ptr p (i + 1) j g
        ]
  unfolding partition
  partition_round fuel xs ys zs ptr plt pi pj pgt p i j g eu ed = rw (partition, eu, ed) refl

  pub partition_last :
      (fuel : ℕ) (zs : List A) (ptr p i j g : ℕ)
      → leb j i ≡ true
      → (elim (leb j i) as (λ b. Option (List A × ℕ × ℕ × ℕ)) [
        | true ↦ some (zs, p, i, g)
        | false ↦ swap zs i j >>= λ xs'. partition cmp fuel xs' ptr p (i + 1) j g
      ])
        ≡ some (zs, p, i, g)
  partition_last fuel zs ptr p i j g e = rw e refl

  pub partition_next :
      (fuel : ℕ) (zs ws : List A) (ptr p i j g : ℕ)
      → leb j i ≡ false
      → swap zs i j ≡ some ws
      → (elim (leb j i) as (λ b. Option (List A × ℕ × ℕ × ℕ)) [
        | true ↦ some (zs, p, i, g)
        | false ↦ swap zs i j >>= λ xs'. partition cmp fuel xs' ptr p (i + 1) j g
      ])
        ≡ partition cmp fuel ws ptr p (i + 1) j g
  partition_next fuel zs ws ptr p i j g e ew = rw (e, ew) refl

  partition_after :
      (fuel : ℕ) (xs ys zs : List A) (ptr plt pi pj pgt p i j g : ℕ)
      → scan_up cmp (suc (pj - pi)) xs ptr plt pi pj ≡ some (ys, p, i)
      → scan_down cmp (suc (pj - i)) ys ptr i pj pgt ≡ some (zs, j, g)
      → Same xs ys
      → Same ys zs
      → pgt ≤ length xs
      → (plt ≤ p) × (p ≤ i) × (i ≤ j + 1) × (j < g) × (g ≤ pgt)
      → ((ws : List A)
          → g ≤ length ws
          → i + 1 ≤ j
          → Parted ws p g (partition cmp fuel ws ptr p (i + 1) j g))
      → Parted xs plt pgt (partition cmp (suc fuel) xs ptr plt pi pj pgt)
  partition_after fuel xs ys zs ptr plt pi pj pgt p i j g eu ed s t room (l1, l2, m1, m3, m4)
        again =
      elim (Bool-cases (leb j i)) [
        | inl met ↦ (
          zs,
          p,
          i,
          g,
          partition_round fuel xs ys zs ptr plt pi pj pgt p i j g eu ed
              ∙ partition_last fuel zs ptr p i j g met,
          Same-trans xs ys zs s t,
          l1,
          l2,
          omega arith,
          m4,
        )
        | inr apart ↦
            (let (ws, ew, u) =
                swap-Same zs i j (ground (arith, s.0, t.0)) (omega (arith, s.0, t.0)) in
              let (vs, l', i', g', ep, v, n1, n2, n3, n4) =
                again ws (omega (arith, s.0, t.0, u.0)) (ground arith) in
              (
                vs,
                l',
                i',
                g',
                partition_round fuel xs ys zs ptr plt pi pj pgt p i j g eu ed
                    ∙ partition_next fuel zs ws ptr p i j g apart ew
                    ∙ ep,
                Same-trans xs ys vs s (Same-trans ys zs vs t (Same-trans zs ws vs u v)),
                omega arith,
                n2,
                n3,
                omega arith,
              ))
      ]

  pub partition-Parted :
      (fuel : ℕ) (xs : List A) (ptr plt pi pj pgt : ℕ)
      → ptr < plt
      → plt ≤ pi
      → pi ≤ pj
      → pj ≤ pgt
      → pgt ≤ length xs
      → pj < pi + fuel
      → Parted xs plt pgt (partition cmp fuel xs ptr plt pi pj pgt)
  unfolding partition
  partition-Parted zero xs ptr plt pi pj pgt a b c d e f = absurd (omega arith)
  partition-Parted (suc fuel) xs ptr plt pi pj pgt a b c d e f =
      let (ys, p, i, eu, s, l1, l2, l3, l4) =
        scan_up-Up (suc (pj - pi)) xs ptr plt pi pj (omega arith) b c (omega arith) (omega arith) in
      let (zs, j, g, ed, t, m1, m2, m3, m4) =
        scan_down-Down (suc (pj - i)) ys ptr i pj pgt (omega (arith, s.0)) l4 (omega arith) d
          (omega (arith, s.0)) (omega arith) in
      partition_after fuel xs ys zs ptr plt pi pj pgt p i j g eu ed s t e (l1, l2, m1, m3, m4)
        (λ ws room near.
          partition-Parted fuel ws ptr p (i + 1) j g (omega arith) (omega arith) near (omega arith)
            room (omega arith))
