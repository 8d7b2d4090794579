-- ===== src/Sort/Divide.antt =====
-- The split of a segment by `rqsort` puts what is less than the pivot before it, and what is greater
-- behind it.
use substrata_swift.Prelude.{ℕ, ◌+◌, ◌-◌, ◌*◌, ◌/◌, ◌<◌, ◌≤◌, ◌≡◌, refl, ◌∙◌, arith, ltb}
use substrata_swift.Prelude.{some, List, length, Bool-cases, inl, inr, ◌⊎◌}
use Prim.Native.Nat.{Ordering}
use substrata_swift.Sort.{split, swap, med3, partition}
use substrata_swift.Sort.Keys.{Keyed, key_at, swap-Swapped}
use substrata_swift.Sort.Heaps.{Moved, Moved-trans}
use substrata_swift.Sort.Parts.{Parts, exchanged}
use substrata_swift.Sort.Parts.Whole.{partition-Parts}
use substrata_swift.Sort.Blocks.{Blocks, swap_block-Blocks, runs_exchanged}
use substrata_swift.Sort.Split.{med3_inside, smaller, split_after}

module _ {ℓ} {A : Type ℓ} (key : A → ℕ) where
  -- The first `lt` elements are less than the pivot, those from `gt` on are greater, the others equal.
  pub record Divided (ptr nmemb lt gt v : ℕ) (xs : List A) : Type 0 where
    pub less : (k : ℕ) → ptr ≤ k → k < ptr + lt → key_at key xs k < v
    pub equal : (k : ℕ) → ptr + lt ≤ k → k < ptr + gt → key_at key xs k ≡ v
    pub more : (k : ℕ) → ptr + gt ≤ k → k < ptr + nmemb → v < key_at key xs k

  resized : (ptr n m : ℕ) (xs ys : List A) → n ≡ m → Moved key ptr n xs ys → Moved key ptr m xs ys
  resized ptr n m xs ys e t = rw e at t

  smaller_cases : (a b : ℕ) → ((smaller a b ≡ b) × (b ≤ a)) ⊎ ((smaller a b ≡ a) × (a ≤ b))
  smaller_cases a b = ground arith

  module _ (cmp : A → A → Ordering) (keyed : Keyed cmp key) where
    abbrev pub Division : List A → ℕ → ℕ → Type ℓ
    Division xs ptr nmemb =
        (ys : List A) × (lt : ℕ) × (gt : ℕ) × (v : ℕ) × (split cmp xs ptr nmemb ≡ some (ys, lt, gt))
        × Divided ptr nmemb lt gt v ys
        × Moved key ptr nmemb xs ys
        × (lt ≤ gt)
        × (gt ≤ nmemb)
        × (lt + (nmemb - gt) < nmemb)

    arranged :
        (ptr nmemb v l i g low high : ℕ) (zs us vs : List A)
        → ptr < l
        → l ≤ i
        → i ≤ g
        → g ≤ ptr + nmemb
        → ((low ≡ l - ptr) × (l - ptr ≤ i - l)) ⊎ ((low ≡ i - l) × (i - l ≤ l - ptr))
        → ((high ≡ g - i) × (g - i ≤ ptr + nmemb - g))
          ⊎ ((high ≡ ptr + nmemb - g) × (ptr + nmemb - g ≤ g - i))
        → Parts key ptr (ptr + nmemb) v l i i g zs
        → Blocks key low ptr (i - low) zs us
        → Blocks key high i (ptr + nmemb - high) us vs
        → Divided ptr nmemb (i - l) (nmemb - (g - i)) v vs
    arranged ptr nmemb v l i g low high zs us vs a b c d first second parts s t =
        let lower =
          runs_exchanged key (λ x. x ≡ v) (λ x. x < v) ptr l i low zs us (omega arith) b first s
            parts.left parts.less in
        let behind : (k : ℕ) → i ≤ k → key_at key us k ≡ key_at key zs k =
          λ k lo. s.others k (inr (ground (arith, first, lo))) (inr (ground (arith, first, lo))) in
        let upper =
          runs_exchanged key (λ x. v < x) (λ x. x ≡ v) i g (ptr + nmemb) high us vs c d second t
            (λ k lo hi. rw (behind k lo) (parts.more k lo hi))
            (λ k lo hi. rw (behind k (omega arith)) (parts.right k lo hi)) in
        let before : (k : ℕ) → k < i → key_at key vs k ≡ key_at key us k =
          λ k lo. t.others k (inl lo) (inl (ground (arith, second, lo))) in
        record {
          less = λ k lo hi. rw (before k (omega arith)) (lower.0 k lo hi);
          equal = λ k lo hi. elim (Bool-cases (ltb k i)) [
            | inl low ↦ before k (ground arith) ∙ lower.1 k lo (ground arith)
            | inr high ↦ upper.0 k (ground arith) (omega arith)
          ];
          more = λ k lo hi. upper.1 k (omega arith) hi;
        }

    pub split-Divided :
        (xs : List A) (ptr nmemb : ℕ) → 6 < nmemb → ptr + nmemb ≤ length xs → Division xs ptr nmemb
    split-Divided xs ptr nmemb many room =
        let (m, e1, above, inside) =
          med3_inside cmp xs ptr (ptr + nmemb) (ptr + nmemb / 4) (ptr + 2 * (nmemb / 4))
            (ptr + 3 * (nmemb / 4)) room (omega arith, omega arith) (omega arith, omega arith)
            (omega arith, omega arith) in
        let (ys, e2, s) = swap-Swapped key xs ptr m (omega arith) (omega arith) in
        let (zs, l, i, g, e3, parts, t, h1, h2, h3, h4) =
          partition-Parts key ptr (ptr + nmemb) cmp keyed nmemb (key_at key ys ptr) ys (ptr + 1)
            (ptr + 1) (ptr + nmemb) (ptr + nmemb) (omega arith) (omega arith) (omega arith)
            (omega arith) (omega arith) (omega (arith, s.same.0)) (omega arith)
            (record {
              left = λ k lo hi. let same : k ≡ ptr = omega arith in rw same refl;
              less = λ k lo hi. absurd (omega arith);
              more = λ k lo hi. absurd (omega arith);
              right = λ k lo hi. absurd (omega arith);
            }) in
        finish m ys zs l i g e1 e2 e3 parts
          (resized ptr (ptr + nmemb - ptr) nmemb xs zs (omega arith) (
            Moved-trans key ptr (ptr + nmemb - ptr) xs ys zs
              (exchanged key ptr (ptr + nmemb) ptr m xs ys (omega arith) (omega arith) above inside
                s)
              t))
          h1 h2 h3 h4
      where
        finish :
            (m : ℕ) (ys zs : List A) (l i g : ℕ)
            → med3 cmp xs (ptr + nmemb / 4) (ptr + 2 * (nmemb / 4)) (ptr + 3 * (nmemb / 4)) ≡ some m
            → swap xs ptr m ≡ some ys
            → partition cmp nmemb ys ptr (ptr + 1) (ptr + 1) (ptr + nmemb) (ptr + nmemb)
              ≡ some (zs, l, i, g)
            → Parts key ptr (ptr + nmemb) (key_at key ys ptr) l i i g zs
            → Moved key ptr nmemb xs zs
            → ptr + 1 ≤ l
            → l ≤ i
            → i ≤ g
            → g ≤ ptr + nmemb
            → Division xs ptr nmemb
        finish m ys zs l i g e1 e2 e3 parts t h1 h2 h3 h4 =
            let low = smaller (i - l) (l - ptr) in
            let high = smaller (g - i) (ptr + nmemb - g) in
            let first = smaller_cases (i - l) (l - ptr) in
            let second = smaller_cases (g - i) (ptr + nmemb - g) in
            let (us, e4, once, u) =
              swap_block-Blocks key ptr (ptr + nmemb) low ptr (i - low) zs (omega arith)
                (ground (arith, first)) (ground (arith, first)) (omega (arith, t.same.0)) in
            let (vs, e5, twice, v) =
              swap_block-Blocks key ptr (ptr + nmemb) high i (ptr + nmemb - high) us (omega arith)
                (ground (arith, second)) (ground (arith, second))
                (omega (arith, t.same.0, u.same.0)) in
            (
              vs,
              i - l,
              nmemb - (g - i),
              key_at key ys ptr,
              split_after cmp xs ys zs us vs ptr nmemb m l i g e1 e2 e3 e4 e5,
              arranged ptr nmemb (key_at key ys ptr) l i g low high zs us vs (omega arith) h2 h3 h4
                  first (ground (arith, second)) parts once twice,
              Moved-trans key ptr nmemb xs zs vs t (
                  Moved-trans key ptr nmemb zs us vs
                    (resized ptr (ptr + nmemb - ptr) nmemb zs us (omega arith) u)
                    (resized ptr (ptr + nmemb - ptr) nmemb us vs (omega arith) v)),
              omega arith,
              omega arith,
              omega arith,
            )
