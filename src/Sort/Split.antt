-- ===== src/Sort/Split.antt =====
-- The split of a segment by `rqsort` ends inside of it, and keeps the elements.
use substrata_swift.Prelude.{ℕ, ◌+◌, ◌-◌, ◌*◌, ◌/◌, ◌<◌, ◌≤◌, ◌≡◌, refl, arith, ltb, if◌then◌else◌}
use substrata_swift.Prelude.{some, List, length}
use Prim.Native.Nat.{Ordering}
use substrata_swift.Sort.{swap, swap_block, med3, partition, split}
use substrata_swift.Sort.Same.{Same, Same-trans, swap-Same, swap_block-Same, order_inside}
use substrata_swift.Sort.Partition.{partition-Parted}

abbrev pub smaller : ℕ → ℕ → ℕ
smaller a b = if ltb a b then a else b

module _ {ℓ} {A : Type ℓ} (cmp : A → A → Ordering) where
  pub med3_inside :
      (xs : List A) (low top a b c : ℕ)
      → top ≤ length xs
      → (low ≤ a) × (a < top)
      → (low ≤ b) × (b < top)
      → (low ≤ c) × (c < top)
      → (m : ℕ) × (med3 cmp xs a b c ≡ some m) × (low ≤ m) × (m < top)
  unfolding med3
  med3_inside xs low top a b c room ha hb hc =
      let (ab, e1) = order_inside cmp xs a b (omega arith) (omega arith) in
      let (bc, e2) = order_inside cmp xs b c (omega arith) (omega arith) in
      let (ac, e3) = order_inside cmp xs a c (omega arith) (omega arith) in
      rw (e1, e2, e3) (pick ab bc ac)
    where
      pick :
          (ab bc ac : Ordering)
          → (m : ℕ) × (some (elim ab as (λ t. ℕ) [
            | Ordering.lt ↦ elim bc as (λ t. ℕ) [
              | Ordering.lt ↦ b
              | _ ↦ elim ac as (λ t. ℕ) [ Ordering.lt ↦ c | _ ↦ a ]
            ]
            | _ ↦ elim bc as (λ t. ℕ) [
              | Ordering.gt ↦ b
              | _ ↦ elim ac as (λ t. ℕ) [ Ordering.lt ↦ a | _ ↦ c ]
            ]
          ])
              ≡ some m)
            × (low ≤ m)
            × (m < top)
      pick Ordering.lt Ordering.lt ac = (b, refl, hb.0, hb.1)
      pick Ordering.lt Ordering.eq Ordering.lt = (c, refl, hc.0, hc.1)
      pick Ordering.lt Ordering.eq Ordering.eq = (a, refl, ha.0, ha.1)
      pick Ordering.lt Ordering.eq Ordering.gt = (a, refl, ha.0, ha.1)
      pick Ordering.lt Ordering.gt Ordering.lt = (c, refl, hc.0, hc.1)
      pick Ordering.lt Ordering.gt Ordering.eq = (a, refl, ha.0, ha.1)
      pick Ordering.lt Ordering.gt Ordering.gt = (a, refl, ha.0, ha.1)
      pick Ordering.eq Ordering.gt ac = (b, refl, hb.0, hb.1)
      pick Ordering.eq Ordering.lt Ordering.lt = (a, refl, ha.0, ha.1)
      pick Ordering.eq Ordering.lt Ordering.eq = (c, refl, hc.0, hc.1)
      pick Ordering.eq Ordering.lt Ordering.gt = (c, refl, hc.0, hc.1)
      pick Ordering.eq Ordering.eq Ordering.lt = (a, refl, ha.0, ha.1)
      pick Ordering.eq Ordering.eq Ordering.eq = (c, refl, hc.0, hc.1)
      pick Ordering.eq Ordering.eq Ordering.gt = (c, refl, hc.0, hc.1)
      pick Ordering.gt Ordering.gt ac = (b, refl, hb.0, hb.1)
      pick Ordering.gt Ordering.lt Ordering.lt = (a, refl, ha.0, ha.1)
      pick Ordering.gt Ordering.lt Ordering.eq = (c, refl, hc.0, hc.1)
      pick Ordering.gt Ordering.lt Ordering.gt = (c, refl, hc.0, hc.1)
      pick Ordering.gt Ordering.eq Ordering.lt = (a, refl, ha.0, ha.1)
      pick Ordering.gt Ordering.eq Ordering.eq = (c, refl, hc.0, hc.1)
      pick Ordering.gt Ordering.eq Ordering.gt = (c, refl, hc.0, hc.1)

  pub split_after :
      (xs ys zs us vs : List A) (ptr nmemb m l i g : ℕ)
      → med3 cmp xs (ptr + nmemb / 4) (ptr + 2 * (nmemb / 4)) (ptr + 3 * (nmemb / 4)) ≡ some m
      → swap xs ptr m ≡ some ys
      → partition cmp nmemb ys ptr (ptr + 1) (ptr + 1) (ptr + nmemb) (ptr + nmemb)
        ≡ some (zs, l, i, g)
      → swap_block (smaller (i - l) (l - ptr)) zs ptr (i - smaller (i - l) (l - ptr)) ≡ some us
      → swap_block
          (smaller (g - i) (ptr + nmemb - g))
          us
          i
          (ptr + nmemb - smaller (g - i) (ptr + nmemb - g))
        ≡ some vs
      → split cmp xs ptr nmemb ≡ some (vs, i - l, nmemb - (g - i))
  unfolding split
  split_after xs ys zs us vs ptr nmemb m l i g e1 e2 e3 e4 e5 = rw (e1, e2, e3, e4, e5) refl

  -- The parts of a segment leave out one element at least, the pivot.
  pub split-Same :
      (xs : List A) (ptr nmemb : ℕ)
      → 6 < nmemb
      → ptr + nmemb ≤ length xs
      → (ys : List A) × (lt : ℕ) × (gt : ℕ) × (split cmp xs ptr nmemb ≡ some (ys, lt, gt))
        × Same xs ys
        × (gt ≤ nmemb)
        × (lt + (nmemb - gt) < nmemb)
  split-Same xs ptr nmemb many room =
      let (m, e1, _, inside) =
        med3_inside xs ptr (ptr + nmemb) (ptr + nmemb / 4) (ptr + 2 * (nmemb / 4))
          (ptr + 3 * (nmemb / 4)) room (omega arith, omega arith) (omega arith, omega arith)
          (omega arith, omega arith) in
      let (ys, e2, s) = swap-Same xs ptr m (omega arith) (omega arith) in
      let (zs, l, i, g, e3, t, h1, h2, h3, h4) =
        partition-Parted cmp nmemb ys ptr (ptr + 1) (ptr + 1) (ptr + nmemb) (ptr + nmemb)
          (omega arith) (omega arith) (omega arith) (omega arith) (omega (arith, s.0))
          (omega arith) in
      finish m ys zs l i g e1 e2 e3 (Same-trans xs ys zs s t) h1 h2 h3 h4
    where
      finish :
          (m : ℕ) (ys zs : List A) (l i g : ℕ)
          → med3 cmp xs (ptr + nmemb / 4) (ptr + 2 * (nmemb / 4)) (ptr + 3 * (nmemb / 4)) ≡ some m
          → swap xs ptr m ≡ some ys
          → partition cmp nmemb ys ptr (ptr + 1) (ptr + 1) (ptr + nmemb) (ptr + nmemb)
            ≡ some (zs, l, i, g)
          → Same xs zs
          → ptr + 1 ≤ l
          → l ≤ i
          → i ≤ g
          → g ≤ ptr + nmemb
          → (vs : List A) × (lt : ℕ) × (gt : ℕ) × (split cmp xs ptr nmemb ≡ some (vs, lt, gt))
            × Same xs vs
            × (gt ≤ nmemb)
            × (lt + (nmemb - gt) < nmemb)
      finish m ys zs l i g e1 e2 e3 t h1 h2 h3 h4 =
          let low = smaller (i - l) (l - ptr) in
          let high = smaller (g - i) (ptr + nmemb - g) in
          let (us, e4, u) =
            swap_block-Same low zs ptr (i - low) (ground (arith, t.0)) (ground (arith, t.0)) in
          let (vs, e5, v) =
            swap_block-Same high us i (ptr + nmemb - high) (ground (arith, t.0, u.0))
              (ground (arith, t.0, u.0)) in
          (
            vs,
            i - l,
            nmemb - (g - i),
            split_after xs ys zs us vs ptr nmemb m l i g e1 e2 e3 e4 e5,
            Same-trans xs zs vs t (Same-trans zs us vs u v),
            omega arith,
            omega arith,
          )
