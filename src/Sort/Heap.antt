-- ===== src/Sort/Heap.antt =====
-- `heapsortx` ends inside of its segment, and keeps the elements.
use substrata_swift.Prelude.{ℕ, zero, suc, ◌+◌, ◌-◌, ◌*◌, ◌/◌, ◌<◌, ◌≤◌, ◌≡◌, refl, arith, ltb}
use substrata_swift.Prelude.{Option, some, ◌>>=◌, List, length, Bool-cases, inl, inr}
use Prim.Native.Nat.{Ordering}
use substrata_swift.Sort.{swap, larger_child, sift, build_heap, take_max, heapsortx}
use substrata_swift.Sort.Same.{Same, Same-refl, Same-trans, swap-Same, order_inside}

module _ {ℓ} {A : Type ℓ} (cmp : A → A → Ordering) where
  larger_child_inside :
      (xs : List A) (base c n : ℕ)
      → c < n
      → base + n ≤ length xs
      → (k : ℕ) × (larger_child cmp xs base c n ≡ some k) × (c ≤ k) × (k < n)
  unfolding larger_child
  larger_child_inside xs base c n h room = elim (Bool-cases (ltb c (n - 1))) [
    | inl more ↦
        (let (o, e) = order_inside cmp xs (base + c) (base + c + 1) (omega arith) (ground arith) in
          rw (more, e) (chosen (ground arith) o))
    | inr last ↦ rw last (c, refl, omega arith, h)
  ]
    where
      chosen :
          c + 1 < n
          → (o : Ordering)
          → (k : ℕ) × (some (elim o [ Ordering.gt ↦ c | _ ↦ c + 1 ]) ≡ some k) × (c ≤ k) × (k < n)
      chosen i Ordering.gt = (c, refl, omega arith, h)
      chosen i Ordering.eq = (c + 1, refl, omega arith, omega arith)
      chosen i Ordering.lt = (c + 1, refl, omega arith, omega arith)

  sift-Same :
      (fuel : ℕ) (xs : List A) (base r n : ℕ)
      → r < n
      → n ≤ r + fuel
      → base + n ≤ length xs
      → (ys : List A) × (sift cmp fuel xs base r n ≡ some ys) × Same xs ys
  unfolding sift
  sift-Same zero xs base r n h enough room = absurd (omega arith)
  sift-Same (suc fuel) xs base r n h enough room = elim (Bool-cases (ltb (r * 2 + 1) n)) [
    | inr leaf ↦ rw (leaf, sift) (xs, refl, Same-refl xs)
    | inl more ↦
        (let (c, e, low, high) = larger_child_inside xs base (r * 2 + 1) n (ground arith) room in
          let (o, e') = order_inside cmp xs (base + r) (base + c) (omega arith) (omega arith) in
          rw (more, sift, e, e') (moved (λ ys c'. sift-Same fuel ys base c' n) c low high o))
  ]
    where
      further :
          ((ys : List A) (c : ℕ)
            → c < n
            → n ≤ c + fuel
            → base + n ≤ length ys
            → (zs : List A) × (sift cmp fuel ys base c n ≡ some zs) × Same ys zs)
          → (c : ℕ) → r * 2 + 1 ≤ c
          → c < n
          → (ys : List A) × (swap xs (base + r) (base + c) >>= (λ xs'. sift cmp fuel xs' base c n)
              ≡ some ys)
            × Same xs ys
      further again c low high =
          let (ys, e, s) = swap-Same xs (base + r) (base + c) (omega arith) (omega arith) in
          let (zs, e', t) = again ys c high (omega arith) (omega (arith, s.0)) in
          (zs, rw e e', Same-trans xs ys zs s t)

      moved :
          ((ys : List A) (c : ℕ)
            → c < n
            → n ≤ c + fuel
            → base + n ≤ length ys
            → (zs : List A) × (sift cmp fuel ys base c n ≡ some zs) × Same ys zs)
          → (c : ℕ) → r * 2 + 1 ≤ c
          → c < n
          → (o : Ordering)
          → (ys : List A) × (elim o as (λ t. Option (List A)) [
            | Ordering.gt ↦ some xs
            | _ ↦ swap xs (base + r) (base + c) >>= λ xs'. sift cmp fuel xs' base c n
          ]
              ≡ some ys)
            × Same xs ys
      moved again c low high Ordering.gt = (xs, refl, Same-refl xs)
      moved again c low high Ordering.eq = further again c low high
      moved again c low high Ordering.lt = further again c low high

  build_heap-Same :
      (i : ℕ) (xs : List A) (base n : ℕ)
      → i ≤ n
      → base + n ≤ length xs
      → (ys : List A) × (build_heap cmp i xs base n ≡ some ys) × Same xs ys
  unfolding build_heap
  build_heap-Same zero xs base n h room = (xs, refl, Same-refl xs)
  build_heap-Same (suc i) xs base n h room =
      let (ys, e, s) = sift-Same (suc n) xs base i n (omega arith) (omega arith) room in
      let (zs, e', t) = build_heap-Same i ys base n (omega arith) (omega (arith, s.0)) in
      (zs, rw e e', Same-trans xs ys zs s t)

  take_max-Same :
      (i : ℕ) (xs : List A) (base : ℕ)
      → base + i < length xs
      → (ys : List A) × (take_max cmp i xs base ≡ some ys) × Same xs ys
  unfolding take_max
  take_max-Same zero xs base room = (xs, refl, Same-refl xs)
  take_max-Same (suc i) xs base room =
      let (ys, e, s) = swap-Same xs base (base + suc i) (omega arith) (omega arith) in
      let (zs, e', t) =
        sift-Same (suc (suc i)) ys base 0 (suc i) (omega arith) (omega arith)
          (omega (arith, s.0)) in
      let (ws, e2, u) = take_max-Same i zs base (omega (arith, s.0, t.0)) in
      (ws, rw (e, e') e2, Same-trans xs ys ws s (Same-trans ys zs ws t u))

  pub heapsortx-Same :
      (xs : List A) (base nmemb : ℕ)
      → base + nmemb ≤ length xs
      → (ys : List A) × (heapsortx cmp xs base nmemb ≡ some ys) × Same xs ys
  unfolding heapsortx
  heapsortx-Same xs base nmemb room = elim (Bool-cases (ltb 1 nmemb)) [
    | inr few ↦ rw few (xs, refl, Same-refl xs)
    | inl many ↦
        (let (ys, e, s) = build_heap-Same (nmemb / 2) xs base nmemb (omega arith) room in
          let (zs, e', t) = take_max-Same (nmemb - 1) ys base (ground (arith, s.0)) in
          rw (many, e, e') (zs, refl, Same-trans xs ys zs s t))
  ]
