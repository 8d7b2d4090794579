-- ===== src/Sort/Blocks.antt =====
-- `swap_block` in `rqsort`, by keys: two runs of a segment change places.
use substrata_swift.Prelude.{ℕ, zero, suc, ◌+◌, ◌-◌, ◌<◌, ◌≤◌, ◌≡◌, refl, sym, ◌∙◌, arith, ltb}
use substrata_swift.Prelude.{some, List, length, Bool-cases, inl, inr, ◌⊎◌}
use mathlib.Core.Path.{subst}
use substrata_swift.Sort.{swap_block}
use substrata_swift.Sort.Keys.{key_at, Swapped, swap-Swapped}
use substrata_swift.Sort.Heaps.{Moved, Moved-refl, Moved-trans}
use substrata_swift.Sort.Parts.{exchanged}

module _ {ℓ} {A : Type ℓ} (key : A → ℕ) where
  -- `n` elements from `i` on and `n` from `j` on have changed places.
  pub record Blocks (n i j : ℕ) (xs ys : List A) : Type 0 where
    pub low : (k : ℕ) → i ≤ k → k < i + n → key_at key ys k ≡ key_at key xs (j + (k - i))
    pub high : (k : ℕ) → j ≤ k → k < j + n → key_at key ys k ≡ key_at key xs (i + (k - j))
    pub others :
        (k : ℕ) → (k < i) ⊎ (i + n ≤ k) → (k < j) ⊎ (j + n ≤ k) → key_at key ys k ≡ key_at key xs k

  one_more :
      (n i j : ℕ) (xs ys zs : List A)
      → i + suc n ≤ j
      → Swapped key xs i j ys
      → Blocks n (i + 1) (j + 1) ys zs
      → Blocks (suc n) i j xs zs
  one_more n i j xs ys zs apart s b = record {
    low = λ k lo hi. elim (Bool-cases (ltb i k)) [
      | inl after ↦
          (let at : j + 1 + (k - (i + 1)) ≡ j + (k - i) = ground arith in
            rw at at (b.low k (ground arith) (omega arith))
            ∙ s.others (j + (k - i)) (λ e. absurd (ground arith)) (λ e. absurd (ground arith)))
      | inr first ↦
          (let same : k ≡ i = ground arith in
            let at : j + (k - i) ≡ j = omega arith in
            rw (at, same) (b.others i (inl (omega arith)) (inl (omega arith)) ∙ s.first))
    ];
    high = λ k lo hi. elim (Bool-cases (ltb j k)) [
      | inl after ↦
          (let at : i + 1 + (k - (j + 1)) ≡ i + (k - j) = ground arith in
            rw at at (b.high k (ground arith) (omega arith))
            ∙ s.others (i + (k - j)) (λ e. absurd (ground arith)) (λ e. absurd (ground arith)))
      | inr first ↦
          (let same : k ≡ j = ground arith in
            let at : i + (k - j) ≡ i = omega arith in
            rw (at, same) (b.others j (inr (omega arith)) (inl (omega arith)) ∙ s.second))
    ];
    others = λ k a c.
        b.others k (ground (arith, a)) (ground (arith, c))
        ∙ s.others k (λ e. absurd (ground (arith, a, e))) (λ e. absurd (ground (arith, c, e)));
  }

  pub swap_block-Blocks :
      (ptr top n i j : ℕ) (xs : List A)
      → ptr ≤ i
      → i + n ≤ j
      → j + n ≤ top
      → top ≤ length xs
      → (ys : List A) × (swap_block n xs i j ≡ some ys)
        × Blocks n i j xs ys
        × Moved key ptr (top - ptr) xs ys
  unfolding swap_block
  swap_block-Blocks ptr top zero i j xs a b c room = (
    xs,
    refl,
    record {
      low = λ k lo hi. absurd (omega (arith, lo, hi));
      high = λ k lo hi. absurd (omega (arith, lo, hi));
      others = λ k l r. refl;
    },
    Moved-refl key ptr (top - ptr) xs,
  )
  swap_block-Blocks ptr top (suc n) i j xs a b c room =
      let (ys, e1, s) = swap-Swapped key xs i j (omega arith) (omega arith) in
      let (zs, e2, done, t) =
        swap_block-Blocks ptr top n (i + 1) (j + 1) ys (omega arith) (omega arith) (omega arith)
          (omega (arith, s.same.0)) in
      (
        zs,
        rw e1 e2,
        one_more n i j xs ys zs b s done,
        Moved-trans key ptr (top - ptr) xs ys zs
            (exchanged key ptr top i j xs ys a (omega arith) (omega arith) (omega arith) s) t,
      )

  -- The exchange of as many as the shorter of two runs that meet at `b` puts the second before the first.
  pub runs_exchanged :
      (P Q : ℕ → Type 0) (a b c n : ℕ) (xs ys : List A)
      → a ≤ b
      → b ≤ c
      → ((n ≡ b - a) × (b - a ≤ c - b)) ⊎ ((n ≡ c - b) × (c - b ≤ b - a))
      → Blocks n a (c - n) xs ys
      → ((k : ℕ) → a ≤ k → k < b → P (key_at key xs k))
      → ((k : ℕ) → b ≤ k → k < c → Q (key_at key xs k))
      → ((k : ℕ) → a ≤ k → k < a + (c - b) → Q (key_at key ys k))
        × ((k : ℕ) → a + (c - b) ≤ k → k < c → P (key_at key ys k))
  runs_exchanged P Q a b c n xs ys l m shorter s p q = (
    λ k lo hi. elim (Bool-cases (ltb k (a + n))) [
      | inl moved ↦
          subst Q (sym (s.low k lo (ground arith)))
            (q (c - n + (k - a)) (ground (arith, shorter)) (ground (arith, shorter)))
      | inr kept ↦
          subst Q (sym (s.others k (inr (ground arith)) (inl (ground (arith, shorter)))))
            (q k (ground (arith, shorter)) (ground (arith, shorter)))
    ],
    λ k lo hi. elim (Bool-cases (ltb k (c - n))) [
      | inl kept ↦
          subst P (sym (s.others k (inr (ground (arith, shorter))) (inl (ground arith))))
            (p k (ground (arith, shorter)) (ground (arith, shorter)))
      | inr moved ↦
          subst P (sym (s.high k (ground arith) (ground (arith, shorter))))
            (p (a + (k - (c - n))) (ground arith) (ground (arith, shorter)))
    ],
  )
