-- ===== src/Sort/Same.antt =====
-- Exchanges keep the elements of an array: what each step of the sort does to it.
use substrata_swift.Prelude.{ℕ, zero, suc, ◌+◌, ◌<◌, ◌≤◌, ◌≡◌, refl, ◌∙◌, arith, ◌==◌, ==_iff}
use substrata_swift.Prelude.{if◌then◌else◌, Bool, some}
use substrata_swift.Prelude.{List, [], ◌∷◌, length, get_elem?, set, length-set}
use Prim.Native.Nat.{Ordering}
use substrata_swift.Sort.{swap, swap_block, order}

module _ {ℓ} {A : Type ℓ} where
  -- The number of elements that pass a test.
  abbrev pub count : (A → Bool) → List A → ℕ
  count q [] = 0
  count q (x ∷ xs) = let n = count q xs in if q x then suc n else n

  -- The same elements as often, in some order.
  abbrev pub Same : List A → List A → Type ℓ
  Same xs ys = (length ys ≡ length xs) × ((q : A → Bool) → count q ys ≡ count q xs)

  pub Same-refl : (xs : List A) → Same xs xs
  Same-refl xs = (refl, λ q. refl)

  pub Same-trans : (xs ys zs : List A) → Same xs ys → Same ys zs → Same xs zs
  Same-trans xs ys zs s t = (t.0 ∙ s.0, λ q. t.1 q ∙ s.1 q)

  pub get_inside : (xs : List A) (i : ℕ) → i < length xs → (x : A) × (get_elem? xs i ≡ some x)
  get_inside [] i h = absurd (omega arith)
  get_inside (x ∷ xs) zero h = (x, refl)
  get_inside (x ∷ xs) (suc i) h = get_inside xs i (omega arith)

  pub get-set :
      (xs : List A) (i j : ℕ) (v : A)
      → i < length xs
      → get_elem? (set xs i v) j ≡ (if i == j then some v else get_elem? xs j)
  get-set [] i j v h = absurd (omega arith)
  get-set (x ∷ xs) zero zero v h = refl
  get-set (x ∷ xs) zero (suc j) v h = ground (arith, ==_iff 0 (suc j))
  get-set (x ∷ xs) (suc i) zero v h = ground (arith, ==_iff (suc i) 0)
  get-set (x ∷ xs) (suc i) (suc j) v h =
      ground (arith, get-set xs i j v, ==_iff i j, ==_iff (suc i) (suc j))

  abbrev one : (A → Bool) → A → ℕ
  one q x = if q x then 1 else 0

  count-set :
      (q : A → Bool) (xs : List A) (i : ℕ) (x v : A)
      → get_elem? xs i ≡ some x
      → count q (set xs i v) + one q x ≡ count q xs + one q v
  count-set q [] i x v e = cc
  count-set q (y ∷ xs) zero x v e = (let same : y ≡ x = ground arith in rw (← same) (ground arith))
  count-set q (y ∷ xs) (suc i) x v e = ground (arith, count-set q xs i x v e)

  pub swap-Same :
      (xs : List A) (i j : ℕ)
      → i < length xs
      → j < length xs
      → (ys : List A) × (swap xs i j ≡ some ys) × Same xs ys
  unfolding swap
  swap-Same xs i j hi hj =
      let (x, ex) = get_inside xs i hi in
      let (y, ey) = get_inside xs j hj in
      (
        set (set xs i y) j x,
        rw (ex, ey) refl,
        (length-set (set xs i y) j x ∙ length-set xs i y, λ q. kept x y ex ey q),
      )
    where
      kept :
          (x y : A)
          → get_elem? xs i ≡ some x
          → get_elem? xs j ≡ some y
          → (q : A → Bool) → count q (set (set xs i y) j x) ≡ count q xs
      kept x y ex ey q =
          let there : get_elem? (set xs i y) j ≡ some y = ground (arith, get-set xs i j y hi, ey) in
          omega (arith, count-set q xs i x y ex, count-set q (set xs i y) j y x there)

  pub swap_block-Same :
      (n : ℕ) (xs : List A) (i j : ℕ)
      → i + n ≤ length xs
      → j + n ≤ length xs
      → (ys : List A) × (swap_block n xs i j ≡ some ys) × Same xs ys
  unfolding swap_block
  swap_block-Same zero xs i j hi hj = (xs, refl, Same-refl xs)
  swap_block-Same (suc n) xs i j hi hj =
      let (ys, e, s) = swap-Same xs i j (omega arith) (omega arith) in
      let (zs, e', t) =
        swap_block-Same n ys (i + 1) (j + 1) (omega (arith, s.0)) (omega (arith, s.0)) in
      (zs, rw e e', Same-trans xs ys zs s t)

  module _ (cmp : A → A → Ordering) where
    pub order_inside :
        (xs : List A) (i j : ℕ)
        → i < length xs
        → j < length xs
        → (o : Ordering) × (order cmp xs i j ≡ some o)
    unfolding order
    order_inside xs i j hi hj =
        let (x, ex) = get_inside xs i hi in
        let (y, ey) = get_inside xs j hj in (cmp x y, rw (ex, ey) refl)
