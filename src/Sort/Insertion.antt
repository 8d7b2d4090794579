-- ===== src/Sort/Insertion.antt =====
-- The insertion sort of `rqsort` ends with its segment in order.
use substrata_swift.Prelude.{ℕ, zero, suc, ◌+◌, ◌<◌, ◌≤◌, ◌≡◌, ◌≢◌, refl, arith}
use substrata_swift.Prelude.{Option, some, ◌>>=◌, List, length, ==_iff}
use Prim.Native.Nat.{Ordering}
use substrata_swift.Sort.{swap, insert_down, insertion_sort}
use substrata_swift.Sort.Keys.{Keyed, key_at, swap-Swapped, Compares, order_keys}
use substrata_swift.Sort.Heaps.{Moved, Moved-refl, Moved-trans, Swapped-Moved, segment_after}
use substrata_swift.Sort.Ordered.{IsSorted, Moved-widen}

module _ {ℓ} {A : Type ℓ} (key : A → ℕ) (base : ℕ) where
  -- The first `n` are in order but for the place `k`, which is not greater than those behind it.
  record Inserting (n k : ℕ) (xs : List A) : Type 0 where
    others :
        (a b : ℕ)
        → a ≤ b
        → b < n
        → a ≢ k
        → b ≢ k
        → key_at key xs (base + a) ≤ key_at key xs (base + b)
    low : (b : ℕ) → k < b → b < n → key_at key xs (base + k) ≤ key_at key xs (base + b)

  module _ (cmp : A → A → Ordering) (keyed : Keyed cmp key) where
    insert_down-IsSorted :
        (k n : ℕ) (xs : List A)
        → k < n
        → base + n ≤ length xs
        → Inserting n k xs
        → (ys : List A) × (insert_down cmp k xs base ≡ some ys)
          × IsSorted key base n ys
          × Moved key base n xs ys
    unfolding insert_down
    insert_down-IsSorted zero n xs l room v = (
      xs,
      refl,
      λ a b le b_in. ground (arith, v.others a b, v.low b, ==_iff a 0, ==_iff b 0),
      Moved-refl key base n xs,
    )
    insert_down-IsSorted (suc k) n xs l room v =
        let (o, e, said) =
          order_keys key cmp keyed xs (base + k) (base + suc k) (omega arith) (omega arith) in
        rw e (moved (λ ys. insert_down-IsSorted k n ys) o said)
      where
        settled : key_at key xs (base + k) ≤ key_at key xs (base + suc k) → IsSorted key base n xs
        settled le a b le' b_in = ground (
          arith,
          v.others a b,
          v.others a k,
          v.low b,
          ==_iff a (suc k),
          ==_iff b (suc k),
          ==_iff a b,
        )

        moved :
            ((ys : List A)
              → k < n
              → base + n ≤ length ys
              → Inserting n k ys
              → (zs : List A) × (insert_down cmp k ys base ≡ some zs)
                × IsSorted key base n zs
                × Moved key base n ys zs)
            → (o : Ordering)
            → Compares key cmp keyed o (key_at key xs (base + k)) (key_at key xs (base + suc k))
            → (ys : List A) × (elim o as (λ t. Option (List A)) [
              | Ordering.gt ↦
                  swap xs (base + suc k) (base + k) >>= λ xs'. insert_down cmp k xs' base
              | _ ↦ some xs
            ]
                ≡ some ys)
              × IsSorted key base n ys
              × Moved key base n xs ys
        moved again Ordering.lt said = (xs, refl, settled (omega arith), Moved-refl key base n xs)
        moved again Ordering.eq said = (xs, refl, settled (omega arith), Moved-refl key base n xs)
        moved again Ordering.gt said =
            let (ys, e1, s) =
              swap-Swapped key xs (base + suc k) (base + k) (omega arith) (omega arith) in
            let new = segment_after key base cmp keyed (suc k) k xs ys s in
            let (zs, e2, done, t) = again ys (omega arith) (omega (arith, s.same.0)) (record {
              others = λ a b le b_in x y.
                  ground
                    (arith, new a, new b, v.others a b, v.others a k, v.others k b, ==_iff a b);
              low = λ b low b_in. ground (arith, new k, new b, v.low b);
            }) in
            (
              zs,
              rw e1 e2,
              done,
              Moved-trans key base n xs ys zs
                  (Swapped-Moved key base n (suc k) k xs ys l (omega arith) s) t,
            )

    -- The insertion sort of `left` elements behind `k` that are in order puts all of them in ascending
    -- order of the keys, keeps the elements, and leaves those outside of the segment as they are.
    pub insertion_sort-IsSorted :
        (left k : ℕ) (xs : List A)
        → base + (k + left) ≤ length xs
        → IsSorted key base k xs
        → (ys : List A) × (insertion_sort cmp left k xs base ≡ some ys)
          × IsSorted key base (k + left) ys
          × Moved key base (k + left) xs ys
    unfolding insertion_sort
    insertion_sort-IsSorted zero k xs room sorted = (
      xs,
      refl,
      λ a b le b_in. sorted a b le (omega (arith, b_in)),
      Moved-refl key base (k + zero) xs,
    )
    insertion_sort-IsSorted (suc left) k xs room sorted =
        let (ys, e1, once, s) =
          insert_down-IsSorted k (suc k) xs (omega arith) (omega arith) (record {
            others = λ a b le b_in x y. sorted a b le (omega (arith, b_in, y));
            low = λ b low b_in. absurd (omega (arith, low, b_in));
          }) in
        let (zs, e2, done, t) =
          insertion_sort-IsSorted left (suc k) ys (omega (arith, s.same.0)) once in
        let fits : suc k + left ≡ k + suc left = omega arith in
        (
          zs,
          rw e1 e2,
          rw fits at done,
          Moved-trans key base (k + suc left) xs ys zs
              (Moved-widen key base (suc k) (k + suc left) xs ys (omega arith) s) (rw fits at t),
        )
