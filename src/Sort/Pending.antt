-- ===== src/Sort/Pending.antt =====
-- The segments that `rqsort` has still to put in order, on its stack: every two elements are in order or
-- lie in one of them.
use substrata_swift.Prelude.{ℕ, ◌+◌, ◌-◌, ◌<◌, ◌≤◌, ◌≡◌, arith}
use substrata_swift.Prelude.{List, [], ◌∷◌, inl, inr, ◌⊎◌}
use substrata_swift.Sort.Keys.{key_at}
use substrata_swift.Sort.Heaps.{Moved}
use substrata_swift.Sort.Ordered.{IsSorted}
use substrata_swift.Sort.Divide.{Divided}

abbrev pub Within : ℕ → ℕ → ℕ → Type 0
Within b c i = (b ≤ i) × (i < b + c)

-- One of the segments holds both places.
abbrev pub Shared : ℕ → ℕ → List (ℕ × ℕ × ℕ) → Type 0
Shared i j [] = ⊥
Shared i j ((b, c, d) ∷ stack) = (Within b c i × Within b c j) ⊎ Shared i j stack

abbrev pub Away : ℕ → ℕ → List (ℕ × ℕ × ℕ) → Type 0
Away b c [] = Unit
Away b c ((b', c', d) ∷ stack) = ((b + c ≤ b') ⊎ (b' + c' ≤ b)) × Away b c stack

-- The segments lie inside of the first `n` elements, and apart from each other.
abbrev pub Sound : ℕ → List (ℕ × ℕ × ℕ) → Type 0
Sound n [] = Unit
Sound n ((b, c, d) ∷ stack) = (b + c ≤ n) × Away b c stack × Sound n stack

pub Away-within :
    (stack : List (ℕ × ℕ × ℕ)) (b c b' c' : ℕ)
    → b ≤ b'
    → b' + c' ≤ b + c
    → Away b c stack
    → Away b' c' stack
Away-within [] b c b' c' lo hi a = tt
Away-within ((e, f, d) ∷ stack) b c b' c' lo hi a =
    (ground (arith, a.0), Away-within stack b c b' c' lo hi a.1)

unshared :
    (stack : List (ℕ × ℕ × ℕ)) (b c i j : ℕ)
    → Away b c stack
    → Within b c i ⊎ Within b c j
    → Shared i j stack
    → ⊥
unshared [] b c i j a h s = s
unshared ((e, f, d) ∷ stack) b c i j a h (inl both) = ground (arith, a.0, h, both)
unshared ((e, f, d) ∷ stack) b c i j a h (inr s) = unshared stack b c i j a.1 h s

Within-cases : (b c i : ℕ) → Within b c i ⊎ (i < b) ⊎ (b + c ≤ i)
Within-cases b c i = ground arith

module _ {ℓ} {A : Type ℓ} (key : A → ℕ) where
  abbrev pub InOrder : ℕ → List (ℕ × ℕ × ℕ) → List A → Type 0
  InOrder n stack xs =
      (i j : ℕ) → i ≤ j → j < n → (key_at key xs i ≤ key_at key xs j) ⊎ Shared i j stack

  -- What becomes of a segment when it is divided or put in order.
  pub refined :
      (n b c d : ℕ) (stack new : List (ℕ × ℕ × ℕ)) (xs : List A)
      → ((i j : ℕ)
          → i ≤ j
          → Within b c i
          → Within b c j
          → (key_at key xs i ≤ key_at key xs j) ⊎ Shared i j new)
      → ((i j : ℕ) → Shared i j stack → Shared i j new)
      → InOrder n ((b, c, d) ∷ stack) xs
      → InOrder n new xs
  refined n b c d stack new xs here there o i j le l = elim (o i j le l) [
    | inl sorted ↦ inl sorted
    | inr (inl both) ↦ here i j le both.0 both.1
    | inr (inr s) ↦ inr (there i j s)
  ]

  pub settled :
      (n b c d : ℕ) (stack : List (ℕ × ℕ × ℕ)) (xs : List A)
      → IsSorted key b c xs
      → InOrder n ((b, c, d) ∷ stack) xs
      → InOrder n stack xs
  settled n b c d stack xs sorted =
      refined n b c d stack stack xs
        (λ i j le x y.
          let ei : b + (i - b) ≡ i = omega (arith, x.0) in
          let ej : b + (j - b) ≡ j = omega (arith, y.0) in
          inl
            (rw (ei, ej) at (sorted (i - b) (j - b) (omega (arith, le)) (omega (arith, y.0, y.1)))))
        (λ i j s. s)

  -- The parts of a segment around the pivot.
  pub zones :
      (b c lt gt v i j : ℕ) (xs : List A)
      → Divided key b c lt gt v xs
      → i ≤ j
      → lt ≤ gt
      → Within b c i
      → Within b c j
      → (key_at key xs i ≤ key_at key xs j)
        ⊎ (Within b lt i × Within b lt j)
        ⊎ (Within (b + gt) (c - gt) i × Within (b + gt) (c - gt) j)
  zones b c lt gt v i j xs p le m x y =
      ground (arith, x, y, p.less i, p.less j, p.equal i, p.equal j, p.more i, p.more j)

  -- A segment of which the elements have moved is in order with the others as before.
  pub carried :
      (n b c d : ℕ) (stack : List (ℕ × ℕ × ℕ)) (xs ys : List A)
      → b + c ≤ n
      → Away b c stack
      → Moved key b c xs ys
      → InOrder n ((b, c, d) ∷ stack) xs
      → InOrder n ((b, c, d) ∷ stack) ys
  carried n b c d stack xs ys fits away s o i j le l = elim (Within-cases b c i) [
    | inl x ↦ elim (Within-cases b c j) [
      | inl y ↦ inr (inl (x, y))
      | inr y ↦ inl (after i j l x y le)
    ]
    | inr x ↦ elim (Within-cases b c j) [
      | inl y ↦ inl (before i j l x y le)
      | inr y ↦ elim (o i j le l) [
        | inl sorted ↦ inl (omega (arith, sorted, s.outside i x, s.outside j y))
        | inr t ↦ elim t [ inl both ↦ absurd (ground (arith, x, both)) | inr u ↦ inr (inr u) ]
      ]
    ]
  ]
    where
      after :
          (i j : ℕ)
          → j < n
          → Within b c i
          → (j < b) ⊎ (b + c ≤ j)
          → i ≤ j
          → key_at key ys i ≤ key_at key ys j
      after i j l x y le =
          let bound : (k : ℕ) → k < c → key_at key xs (b + k) ≤ key_at key xs j = λ k k_in.
            elim (o (b + k) j (ground (arith, x, y)) l) [
              | inl sorted ↦ sorted
              | inr (inl both) ↦ absurd (ground (arith, y, both))
              | inr (inr t) ↦
                  absurd
                    (unshared stack b c (b + k) j away (inl (omega arith, omega (arith, k_in))) t)
            ] in
          let at : b + (i - b) ≡ i = omega (arith, x.0) in
          let all = s.inside (key_at key xs j) bound (i - b) (omega (arith, x)) in
          omega (arith, rw at at all, s.outside j y)

      before :
          (i j : ℕ)
          → j < n
          → (i < b) ⊎ (b + c ≤ i)
          → Within b c j
          → i ≤ j
          → key_at key ys i ≤ key_at key ys j
      before i j l x y le =
          let bound : (k : ℕ) → k < c → key_at key xs i ≤ key_at key xs (b + k) = λ k k_in.
            elim (o i (b + k) (ground (arith, x, y)) (omega (arith, fits, k_in))) [
              | inl sorted ↦ sorted
              | inr (inl both) ↦ absurd (ground (arith, x, both))
              | inr (inr t) ↦
                  absurd
                    (unshared stack b c i (b + k) away (inr (omega arith, omega (arith, k_in))) t)
            ] in
          let at : b + (j - b) ≡ j = omega (arith, y.0) in
          let all = s.above (key_at key xs i) bound (j - b) (omega (arith, y)) in
          omega (arith, rw at at all, s.outside i x)
