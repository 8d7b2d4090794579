-- ===== src/Sort/Keys.antt =====
-- The order of a sort by keys, and what an exchange does to the keys of an array.
use substrata_swift.Prelude.{ℕ, ◌<◌, ◌≡◌, ◌≢◌, refl, arith, ==_iff}
use substrata_swift.Prelude.{Option, none, some, List, length, get_elem?, set, length-set}
use Prim.Native.Nat.{Ordering}
use substrata_swift.Sort.{swap, order}
use substrata_swift.Sort.Same.{Same, get_inside, get-set, swap-Same}

-- The comparison is that of the keys.
pub record Keyed {ℓ} {A : Type ℓ} (cmp : A → A → Ordering) (key : A → ℕ) : Type ℓ where
  pub less : (x y : A) → cmp x y ≡ Ordering.lt → key x < key y
  pub equal : (x y : A) → cmp x y ≡ Ordering.eq → key x ≡ key y
  pub greater : (x y : A) → cmp x y ≡ Ordering.gt → key y < key x

module _ {ℓ} {A : Type ℓ} (key : A → ℕ) where
  abbrev pub key_of : Option A → ℕ
  key_of none = 0
  key_of (some x) = key x

  -- The key of an element of the array, and 0 outside of it.
  abbrev pub key_at : List A → ℕ → ℕ
  key_at xs i = key_of (get_elem? xs i)

  -- The array after an exchange, by its keys.
  pub record Swapped (xs : List A) (i j : ℕ) (ys : List A) : Type ℓ where
    pub same : Same xs ys
    pub first : key_at ys i ≡ key_at xs j
    pub second : key_at ys j ≡ key_at xs i
    pub others : (k : ℕ) → k ≢ i → k ≢ j → key_at ys k ≡ key_at xs k

  pub swap-Swapped :
      (xs : List A) (i j : ℕ)
      → i < length xs
      → j < length xs
      → (ys : List A) × (swap xs i j ≡ some ys) × Swapped xs i j ys
  unfolding swap
  swap-Swapped xs i j hi hj =
      let (x, ex) = get_inside xs i hi in
      let (y, ey) = get_inside xs j hj in
      let done = swap-Same xs i j hi hj in
      let made : set (set xs i y) j x ≡ done.0 = ground (arith, rw (ex, ey, swap) at done.1) in
      let at = λ (k : ℕ). get-set (set xs i y) j k x (omega (arith, hj, length-set xs i y)) in
      let at' = λ (k : ℕ). get-set xs i k y hi in
      (
        set (set xs i y) j x,
        rw (ex, ey) refl,
        record {
          same = rw made (done.2);
          first = rw (at i, at' i) (ground (arith, ex, ey, ==_iff i i, ==_iff j i));
          second = rw (at j, at' j) (ground (arith, ex, ey, ==_iff j j, ==_iff i j));
          others = λ k a b. rw (at k, at' k) (ground (arith, ==_iff j k, ==_iff i k));
        },
      )

  module _ (cmp : A → A → Ordering) (keyed : Keyed cmp key) where
    -- The result of a comparison, and what it says of the keys.
    abbrev pub Compares : Ordering → ℕ → ℕ → Type 0
    Compares Ordering.lt a b = a < b
    Compares Ordering.eq a b = a ≡ b
    Compares Ordering.gt a b = b < a

    compares : (x y : A) (o : Ordering) → cmp x y ≡ o → Compares o (key x) (key y)
    compares x y Ordering.lt e = keyed.less x y e
    compares x y Ordering.eq e = keyed.equal x y e
    compares x y Ordering.gt e = keyed.greater x y e

    pub order_keys :
        (xs : List A) (i j : ℕ)
        → i < length xs
        → j < length xs
        → (o : Ordering) × (order cmp xs i j ≡ some o) × Compares o (key_at xs i) (key_at xs j)
    unfolding order
    order_keys xs i j hi hj =
        let (x, ex) = get_inside xs i hi in
        let (y, ey) = get_inside xs j hj in
        (cmp x y, rw (ex, ey) refl, rw (ex, ey) (compares x y (cmp x y) refl))
