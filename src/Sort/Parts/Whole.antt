-- ===== src/Sort/Parts/Whole.antt =====
-- The partition of `rqsort`, by keys.
use substrata_swift.Prelude.{ℕ, zero, suc, ◌+◌, ◌-◌, ◌<◌, ◌≤◌, ◌≡◌, ◌∙◌, arith, leb}
use substrata_swift.Prelude.{Option, some, List, length, Bool-cases, inl, inr, ◌⊎◌, ==_iff}
use Prim.Native.Nat.{Ordering}
use substrata_swift.Sort.{scan_up, scan_down, partition}
use substrata_swift.Sort.Partition.{partition_round, partition_last, partition_next}
use substrata_swift.Sort.Keys.{Keyed, key_at, Swapped, swap-Swapped}
use substrata_swift.Sort.Heaps.{Moved, Moved-trans}
use substrata_swift.Sort.Parts.{Parts, key_after, exchanged, scan_up-Parts}
use substrata_swift.Sort.Parts.Down.{scan_down-Parts}

module _ {ℓ} {A : Type ℓ} (key : A → ℕ) (ptr top : ℕ) (cmp : A → A → Ordering)
    (keyed : Keyed cmp key) where
  abbrev pub Parted : ℕ → List A → ℕ → ℕ → Option (List A × ℕ × ℕ × ℕ) → Type ℓ
  Parted v xs plt pgt r =
      (ys : List A) × (l : ℕ) × (i : ℕ) × (g : ℕ) × (r ≡ some (ys, l, i, g))
      × Parts key ptr top v l i i g ys
      × Moved key ptr (top - ptr) xs ys
      × (plt ≤ l)
      × (l ≤ i)
      × (i ≤ g)
      × (g ≤ pgt)

  -- The scans have met: what is not below the pivot is above it.
  scans_met :
      (v l i j g : ℕ) (zs : List A)
      → j ≤ i
      → i ≤ j + 1
      → ((i ≡ j) → v < key_at key zs i)
      → Parts key ptr top v l i (j + 1) g zs
      → Parts key ptr top v l i i g zs
  scans_met v l i j g zs le near stop parts = record {
    left = parts.left;
    less = parts.less;
    more = λ k lo hi. ground (arith, parts.more k, stop, ==_iff k i, ==_iff i j);
    right = parts.right;
  }

  -- The exchange of one that is above the pivot with one that is below it.
  scans_apart :
      (v l i j g : ℕ) (zs ws : List A)
      → ptr < l
      → l ≤ i
      → i < j
      → j < g
      → g ≤ top
      → v < key_at key zs i
      → key_at key zs j < v
      → Swapped key zs i j ws
      → Parts key ptr top v l i (j + 1) g zs
      → Parts key ptr top v l (i + 1) j g ws
  scans_apart v l i j g zs ws a b c d e more less s parts =
      let new = key_after key ptr top i j zs ws s in
      record {
        left = λ k lo hi. ground (arith, new k, parts.left k);
        less = λ k lo hi. ground (arith, new k, parts.less k, less);
        more = λ k lo hi. ground (arith, new k, parts.more k, more);
        right = λ k lo hi. ground (arith, new k, parts.right k);
      }

  partition_after :
      (fuel v : ℕ) (xs ys zs : List A) (plt pi pj pgt p i j g : ℕ)
      → scan_up cmp (suc (pj - pi)) xs ptr plt pi pj ≡ some (ys, p, i)
      → scan_down cmp (suc (pj - i)) ys ptr i pj pgt ≡ some (zs, j, g)
      → Moved key ptr (top - ptr) xs ys
      → Moved key ptr (top - ptr) ys zs
      → Parts key ptr top v p i (j + 1) g zs
      → (i ≡ pj) ⊎ (v < key_at key ys i)
      → (j ≤ i) ⊎ (key_at key zs j < v)
      → key_at key zs i ≡ key_at key ys i
      → top ≤ length xs
      → (ptr < plt)
        × (plt ≤ p)
        × (p ≤ i)
        × (i ≤ j + 1)
        × (j < pj)
        × (j < g)
        × (g ≤ pgt)
        × (pgt ≤ top)
      → ((ws : List A)
          → i < j
          → top ≤ length ws
          → Parts key ptr top v p (i + 1) j g ws
          → Parted v ws p g (partition cmp fuel ws ptr p (i + 1) j g))
      → Parted v xs plt pgt (partition cmp (suc fuel) xs ptr plt pi pj pgt)
  partition_after fuel v xs ys zs plt pi pj pgt p i j g eu ed s t parts up down kept room
        (l0, l1, l2, m1, m2, m3, m4, m5) again =
      elim (Bool-cases (leb j i)) [
        | inl met ↦ (
          zs,
          p,
          i,
          g,
          partition_round cmp fuel xs ys zs ptr plt pi pj pgt p i j g eu ed
              ∙ partition_last cmp fuel zs ptr p i j g met,
          scans_met v p i j g zs (ground arith) m1 (λ e. ground (arith, up, kept)) parts,
          Moved-trans key ptr (top - ptr) xs ys zs s t,
          l1,
          l2,
          omega arith,
          m4,
        )
        | inr apart ↦
            (let far : i < j = ground arith in
              let inside : top ≤ length zs = omega (arith, s.same.0, t.same.0) in
              let (ws, ew, u) = swap-Swapped key zs i j (omega arith) (omega arith) in
              let (vs, l', i', g', ep, parts', v', n1, n2, n3, n4) =
                again ws far (omega (arith, u.same.0)) (
                  scans_apart v p i j g zs ws (omega arith) l2 far m3 (omega arith)
                    (ground (arith, up, kept)) (ground (arith, down)) u parts) in
              (
                vs,
                l',
                i',
                g',
                partition_round cmp fuel xs ys zs ptr plt pi pj pgt p i j g eu ed
                    ∙ partition_next cmp fuel zs ws ptr p i j g apart ew
                    ∙ ep,
                parts',
                Moved-trans key ptr (top - ptr) xs ys vs s (
                    Moved-trans key ptr (top - ptr) ys zs vs t (
                      Moved-trans key ptr (top - ptr) zs ws vs
                        (exchanged key ptr top i j zs ws (omega arith) (omega arith) (omega arith)
                          (omega arith) u)
                        v')),
                omega arith,
                n2,
                n3,
                omega arith,
              ))
      ]

  pub partition-Parts :
      (fuel v : ℕ) (xs : List A) (plt pi pj pgt : ℕ)
      → ptr < plt
      → plt ≤ pi
      → pi ≤ pj
      → pj ≤ pgt
      → pgt ≤ top
      → top ≤ length xs
      → pj < pi + fuel
      → Parts key ptr top v plt pi pj pgt xs
      → Parted v xs plt pgt (partition cmp fuel xs ptr plt pi pj pgt)
  unfolding partition
  partition-Parts zero v xs plt pi pj pgt a b c d d' room f parts = absurd (omega arith)
  partition-Parts (suc fuel) v xs plt pi pj pgt a b c d d' room f parts =
      let (ys, p, i, eu, once, s, up, l1, l2, l3, l4) =
        scan_up-Parts key ptr top cmp keyed (suc (pj - pi)) v xs plt pi pj pgt a b c d d' room
          (omega arith) parts in
      let (zs, j, g, ed, twice, t, down, kept, m1, m2, m3, m4) =
        scan_down-Parts key ptr top cmp keyed (suc (pj - i)) v ys p i pj pgt (omega arith) l2 l4 d
          d' (omega (arith, s.same.0)) (omega arith) once in
      partition_after fuel v xs ys zs plt pi pj pgt p i j g eu ed s t twice up down kept room
        (a, l1, l2, m1, m2, m3, m4, d')
        (λ ws far inside parts'.
          partition-Parts fuel v ws p (i + 1) j g (omega arith) (omega arith) (omega arith)
            (omega arith) (omega arith) inside (omega arith) parts')
