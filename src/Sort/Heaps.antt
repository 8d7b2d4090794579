-- ===== src/Sort/Heaps.antt =====
-- `heapsortx` puts its segment in order: the sift as a repair of one place of a heap.
use substrata_swift.Prelude.{ℕ, zero, suc, ◌+◌, ◌-◌, ◌*◌, ◌<◌, ◌≤◌, ◌≡◌, ◌≢◌, refl, ◌∙◌, arith, ltb}
use substrata_swift.Prelude.{Option, some, ◌>>=◌, List, length, Bool-cases, inl, inr, ◌⊎◌, ==_iff}
use Prim.Native.Nat.{Ordering}
use substrata_swift.Sort.{swap, larger_child, sift}
use substrata_swift.Sort.Same.{Same, Same-refl, Same-trans}
use substrata_swift.Sort.Keys.{Keyed, key_at, Swapped, swap-Swapped, Compares, order_keys}

abbrev pub IsChild : ℕ → ℕ → Type 0
IsChild p c = (c ≡ p * 2 + 1) ⊎ (c ≡ p * 2 + 1 + 1)

module _ {ℓ} {A : Type ℓ} (key : A → ℕ) (base : ℕ) where
  -- From `lo` on every parent of the first `n` has a key that is not less than those of its children.
  abbrev pub IsHeap : ℕ → ℕ → List A → Type 0
  IsHeap lo n xs =
      (p c : ℕ) → lo ≤ p → IsChild p c → c < n → key_at key xs (base + c) ≤ key_at key xs (base + p)

  -- The same but for the place `r`, whose children are bounded by its parent.
  pub record Broken (lo n r : ℕ) (xs : List A) : Type 0 where
    pub edges :
        (p c : ℕ)
        → lo ≤ p
        → p ≢ r
        → IsChild p c
        → c < n
        → key_at key xs (base + c) ≤ key_at key xs (base + p)
    pub bridged :
        (p c : ℕ)
        → lo ≤ p
        → IsChild p r
        → IsChild r c
        → c < n
        → key_at key xs (base + c) ≤ key_at key xs (base + p)

  -- The elements are the same, those outside of the segment did not move, and every key of the segment
  -- comes from it.
  pub record Moved (n : ℕ) (xs ys : List A) : Type ℓ where
    pub same : Same xs ys
    pub outside : (k : ℕ) → (k < base) ⊎ (base + n ≤ k) → key_at key ys k ≡ key_at key xs k
    pub inside :
        (m : ℕ)
        → ((k : ℕ) → k < n → key_at key xs (base + k) ≤ m)
        → (k : ℕ) → k < n
        → key_at key ys (base + k) ≤ m
    pub above :
        (m : ℕ)
        → ((k : ℕ) → k < n → m ≤ key_at key xs (base + k))
        → (k : ℕ) → k < n
        → m ≤ key_at key ys (base + k)

  pub Moved-refl : (n : ℕ) (xs : List A) → Moved n xs xs
  Moved-refl n xs = record {
    same = Same-refl xs;
    outside = λ k h. refl;
    inside = λ m h. h;
    above = λ m h. h;
  }

  pub Moved-trans : (n : ℕ) (xs ys zs : List A) → Moved n xs ys → Moved n ys zs → Moved n xs zs
  Moved-trans n xs ys zs a b = record {
    same = Same-trans xs ys zs a.same b.same;
    outside = λ k h. b.outside k h ∙ a.outside k h;
    inside = λ m h. b.inside m (a.inside m h);
    above = λ m h. b.above m (a.above m h);
  }

  pub Swapped-Moved :
      (n i j : ℕ) (xs ys : List A)
      → i < n
      → j < n
      → Swapped key xs (base + i) (base + j) ys
      → Moved n xs ys
  Swapped-Moved n i j xs ys hi hj s = record {
    same = s.same;
    outside = λ k h. s.others k (λ e. absurd (omega (arith, h))) (λ e. absurd (omega (arith, h)));
    inside = λ m h k l. ground (
      arith,
      s.first,
      s.second,
      s.others (base + k),
      h i hi,
      h j hj,
      h k l,
      ==_iff k i,
      ==_iff k j,
    );
    above = λ m h k l. ground (
      arith,
      s.first,
      s.second,
      s.others (base + k),
      h i hi,
      h j hj,
      h k l,
      ==_iff k i,
      ==_iff k j,
    );
  }

  module _ (cmp : A → A → Ordering) (keyed : Keyed cmp key) where
    -- The child that `larger_child` chooses.
    record IsLarger (xs : List A) (r n k : ℕ) : Type 0 where
      child : IsChild r k
      within : k < n
      most : (c : ℕ) → IsChild r c → c < n → key_at key xs (base + c) ≤ key_at key xs (base + k)

    larger_child-IsLarger :
        (xs : List A) (r n : ℕ)
        → r * 2 + 1 < n
        → base + n ≤ length xs
        → (k : ℕ) × (larger_child cmp xs base (r * 2 + 1) n ≡ some k) × IsLarger xs r n k
    unfolding larger_child
    larger_child-IsLarger xs r n h room = elim (Bool-cases (ltb (r * 2 + 1) (n - 1))) [
      | inl more ↦
          (let (o, e, said) =
              order_keys key cmp keyed xs (base + (r * 2 + 1)) (base + (r * 2 + 1) + 1)
                (omega arith) (ground arith) in
            let next : base + (r * 2 + 1) + 1 ≡ base + (r * 2 + 1 + 1) = omega arith in
            rw (more, e) (chosen (ground arith) o (rw next at said)))
      | inr last ↦
          rw last (
            r * 2 + 1,
            refl,
            record { child = inl refl; within = h; most = λ c is l. ground arith },
          )
    ]
      where
        chosen :
            r * 2 + 1 + 1 < n
            → (o : Ordering)
            → Compares key cmp keyed o
                (key_at key xs (base + (r * 2 + 1)))
                (key_at key xs (base + (r * 2 + 1 + 1)))
            → (k : ℕ) × (some (elim o [ Ordering.gt ↦ r * 2 + 1 | _ ↦ r * 2 + 1 + 1 ]) ≡ some k)
              × IsLarger xs r n k
        chosen i Ordering.gt said = (
          r * 2 + 1,
          refl,
          record { child = inl refl; within = h; most = λ c is l. ground arith },
        )
        chosen i Ordering.eq said = (
          r * 2 + 1 + 1,
          refl,
          record { child = inr refl; within = i; most = λ c is l. ground arith },
        )
        chosen i Ordering.lt said = (
          r * 2 + 1 + 1,
          refl,
          record { child = inr refl; within = i; most = λ c is l. ground arith },
        )

    pub segment_after :
        (r c : ℕ) (xs ys : List A)
        → Swapped key xs (base + r) (base + c) ys
        → (k : ℕ)
        → ((k ≡ r) × (key_at key ys (base + k) ≡ key_at key xs (base + c)))
          ⊎ ((k ≡ c) × (key_at key ys (base + k) ≡ key_at key xs (base + r)))
          ⊎ ((k ≢ r) × (k ≢ c) × (key_at key ys (base + k) ≡ key_at key xs (base + k)))
    segment_after r c xs ys s k =
        ground (arith, s.first, s.second, s.others (base + k), ==_iff k r, ==_iff k c)

    -- After the exchange with the larger child only that child's place may be out of order.
    Swapped-Broken :
        (lo n r c : ℕ) (xs ys : List A)
        → Broken lo n r xs
        → IsLarger xs r n c
        → key_at key xs (base + r) ≤ key_at key xs (base + c)
        → Swapped key xs (base + r) (base + c) ys
        → Broken lo n c ys
    Swapped-Broken lo n r c xs ys b big le s = record {
      edges = λ p d lo' apart is l. ground (
        arith,
        segment_after r c xs ys s d,
        segment_after r c xs ys s p,
        b.edges p d,
        b.bridged p c,
        big.most d,
        big.child,
      );
      bridged = λ p d lo' is is' l.
          ground (
            arith,
            segment_after r c xs ys s d,
            segment_after r c xs ys s p,
            b.edges c d,
            big.child,
          );
    }

    settled :
        (lo n r : ℕ) (xs : List A)
        → Broken lo n r xs
        → (c : ℕ) → IsLarger xs r n c
        → key_at key xs (base + c) ≤ key_at key xs (base + r)
        → IsHeap lo n xs
    settled lo n r xs b c big le p d lo' is l =
        ground (arith, b.edges p d lo', big.most d, ==_iff p r)

    pub sift-IsHeap :
        (fuel : ℕ) (xs : List A) (lo r n : ℕ)
        → r < n
        → n ≤ r + fuel
        → base + n ≤ length xs
        → lo ≤ r
        → Broken lo n r xs
        → (ys : List A) × (sift cmp fuel xs base r n ≡ some ys) × IsHeap lo n ys × Moved n xs ys
    unfolding sift
    sift-IsHeap zero xs lo r n h enough room above b = absurd (omega arith)
    sift-IsHeap (suc fuel) xs lo r n h enough room above b = elim (Bool-cases (ltb (r * 2 + 1) n)) [
      | inr leaf ↦
          rw (leaf, sift)
            (xs, refl, λ p c lo' is l. ground (arith, b.edges p c lo', ==_iff p r), Moved-refl n xs)
      | inl more ↦
          (let (c, e, big) = larger_child-IsLarger xs r n (ground arith) room in
            let inside = big.within in
            let (o, e', said) =
              order_keys key cmp keyed xs (base + r) (base + c) (omega arith) (omega arith) in
            rw (more, sift, e, e') (moved (λ ys c'. sift-IsHeap fuel ys lo c' n) c big o said))
    ]
      where
        further :
            ((ys : List A) (c : ℕ)
              → c < n
              → n ≤ c + fuel
              → base + n ≤ length ys
              → lo ≤ c
              → Broken lo n c ys
              → (zs : List A) × (sift cmp fuel ys base c n ≡ some zs)
                × IsHeap lo n zs
                × Moved n ys zs)
            → (c : ℕ) → IsLarger xs r n c
            → key_at key xs (base + r) ≤ key_at key xs (base + c)
            → (ys : List A) × (swap xs (base + r) (base + c) >>= (λ xs'. sift cmp fuel xs' base c n)
                ≡ some ys)
              × IsHeap lo n ys
              × Moved n xs ys
        further again c big le =
            let inside = big.within in
            let below : r < c = ground (arith, big.child) in
            let (ys, e, s) =
              swap-Swapped key xs (base + r) (base + c) (omega arith) (omega arith) in
            let (zs, e', heap, t) =
              again ys c inside (omega arith) (omega (arith, s.same.0)) (omega arith)
                (Swapped-Broken lo n r c xs ys b big le s) in
            (zs, rw e e', heap, Moved-trans n xs ys zs (Swapped-Moved n r c xs ys h inside s) t)

        moved :
            ((ys : List A) (c : ℕ)
              → c < n
              → n ≤ c + fuel
              → base + n ≤ length ys
              → lo ≤ c
              → Broken lo n c ys
              → (zs : List A) × (sift cmp fuel ys base c n ≡ some zs)
                × IsHeap lo n zs
                × Moved n ys zs)
            → (c : ℕ) → IsLarger xs r n c
            → (o : Ordering)
            → Compares key cmp keyed o (key_at key xs (base + r)) (key_at key xs (base + c))
            → (ys : List A) × (elim o as (λ t. Option (List A)) [
              | Ordering.gt ↦ some xs
              | _ ↦ swap xs (base + r) (base + c) >>= λ xs'. sift cmp fuel xs' base c n
            ]
                ≡ some ys)
              × IsHeap lo n ys
              × Moved n xs ys
        moved again c big Ordering.gt said =
            (xs, refl, settled lo n r xs b c big (omega arith), Moved-refl n xs)
        moved again c big Ordering.eq said = further again c big (omega arith)
        moved again c big Ordering.lt said = further again c big (omega arith)
