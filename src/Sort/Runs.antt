-- ===== src/Sort/Runs.antt =====
-- `rqsort` ends, with the elements that it began with.
use substrata_swift.Prelude.{ℕ, zero, suc, ◌+◌, ◌-◌, ◌<◌, ◌≤◌, ◌≡◌, refl, sym, ◌∙◌, arith, ltb}
use substrata_swift.Prelude.{
  Bool, true, false, Option, some, ◌>>=◌, List, [], ◌∷◌, length, Bool-cases, inl, inr,
}
use Prim.Native.Nat.{Ordering}
use mathlib.Core.Path.{subst}
use substrata_swift.Sort.{swap, push_segment, segments, insert_down, insertion_sort}
use substrata_swift.Sort.{rqsort_loop, rqsort}
use substrata_swift.Sort.Same.{Same, Same-refl, Same-trans, count, swap-Same, order_inside}
use substrata_swift.Sort.Heap.{heapsortx-Same}
use substrata_swift.Sort.Split.{split-Same}

-- Every segment of the stack lies inside of the array, and has at most as many below it as its depth,
-- which is at most 50.
abbrev Stacked : ℕ → List (ℕ × ℕ × ℕ) → Type 0
Stacked n [] = Unit
Stacked n ((base, count, depth) ∷ stack) =
    (base + count ≤ n) × (depth ≤ 50) × (length stack ≤ depth) × Stacked n stack

-- The rounds that a stack can still take: a segment is split at most as often as it has elements above 6.
abbrev rounds : List (ℕ × ℕ × ℕ) → ℕ
rounds [] = 0
rounds ((base, count, depth) ∷ stack) = suc (count - 6) + rounds stack

module _ {ℓ} {A : Type ℓ} (cmp : A → A → Ordering) where
  insert_down-Same :
      (k : ℕ) (xs : List A) (ptr : ℕ)
      → ptr + k < length xs
      → (ys : List A) × (insert_down cmp k xs ptr ≡ some ys) × Same xs ys
  unfolding insert_down
  insert_down-Same zero xs ptr room = (xs, refl, Same-refl xs)
  insert_down-Same (suc k) xs ptr room =
      let (o, e) = order_inside cmp xs (ptr + k) (ptr + suc k) (omega arith) (omega arith) in
      rw e (moved (λ ys r. insert_down-Same k ys ptr r) o)
    where
      moved :
          ((ys : List A)
            → ptr + k < length ys
            → (zs : List A) × (insert_down cmp k ys ptr ≡ some zs) × Same ys zs)
          → (o : Ordering)
          → (ys : List A) × (elim o as (λ t. Option (List A)) [
            | Ordering.gt ↦ swap xs (ptr + suc k) (ptr + k) >>= λ xs'. insert_down cmp k xs' ptr
            | _ ↦ some xs
          ]
              ≡ some ys)
            × Same xs ys
      moved again Ordering.lt = (xs, refl, Same-refl xs)
      moved again Ordering.eq = (xs, refl, Same-refl xs)
      moved again Ordering.gt =
          let (ys, e1, s) = swap-Same xs (ptr + suc k) (ptr + k) (omega arith) (omega arith) in
          let (zs, e2, t) = again ys (omega (arith, s.0)) in (zs, rw e1 e2, Same-trans xs ys zs s t)

  insertion_sort-Same :
      (left k : ℕ) (xs : List A) (ptr : ℕ)
      → (0 < left → ptr + k + left ≤ length xs)
      → (ys : List A) × (insertion_sort cmp left k xs ptr ≡ some ys) × Same xs ys
  unfolding insertion_sort
  insertion_sort-Same zero k xs ptr room = (xs, refl, Same-refl xs)
  insertion_sort-Same (suc left) k xs ptr room =
      let inside : ptr + k + suc left ≤ length xs = room (omega arith) in
      let (ys, e1, s) = insert_down-Same k xs ptr (omega arith) in
      let (zs, e2, t) = insertion_sort-Same left (suc k) ys ptr (λ h. omega (arith, s.0)) in
      (zs, rw e1 e2, Same-trans xs ys zs s t)

  -- What the loop over a segment leaves.
  abbrev Left : List A → List (ℕ × ℕ × ℕ) → ℕ → Option (List A × List (ℕ × ℕ × ℕ) × ℕ × ℕ) → Type ℓ
  Left xs stack nmemb r =
      (ys : List A) × (stack' : List (ℕ × ℕ × ℕ)) × (ptr : ℕ) × (n : ℕ) × (r
        ≡ some (ys, stack', ptr, n))
      × Same xs ys
      × (0 < n → ptr + n ≤ length xs)
      × Stacked (length xs) stack'
      × (rounds stack' ≤ rounds stack + (nmemb - 6))

  push_lem :
      (stack : List (ℕ × ℕ × ℕ)) (b c d : ℕ)
      → length stack < 50
      → push_segment stack b c d ≡ some ((b, c, d) ∷ stack)
  unfolding push_segment
  push_lem stack b c d h = ground arith

  segments-Left :
      (fuel : ℕ) (xs : List A) (stack : List (ℕ × ℕ × ℕ)) (ptr nmemb depth : ℕ)
      → ptr + nmemb ≤ length xs
      → Stacked (length xs) stack
      → length stack ≤ depth
      → depth ≤ 50
      → 52 ≤ fuel + depth
      → Left xs stack nmemb (segments cmp fuel xs stack ptr nmemb depth)
  unfolding segments
  segments-Left zero xs stack ptr nmemb depth room v low deep enough = absurd (omega arith)
  segments-Left (suc fuel) xs stack ptr nmemb depth room v low deep enough =
      elim (Bool-cases (ltb 6 nmemb)) [
        | inr few ↦
            rw (few, segments)
              (xs, stack, ptr, nmemb, refl, Same-refl xs, λ h. room, v, omega arith)
        | inl many ↦ elim (Bool-cases (ltb 50 (depth + 1))) [
          | inl bottom ↦
              (let (ys, e, s) = heapsortx-Same cmp xs ptr nmemb room in
                rw (many, segments, bottom, e)
                  (ys, stack, ptr, 0, refl, s, λ h. absurd (omega arith), v, omega arith))
          | inr above ↦
              (let (ys, lt, gt, e, s, g, smaller) =
                  split-Same cmp xs ptr nmemb (ground arith) room in
                rw (many, segments, above, e)
                  (parts ys lt gt s g smaller (ground arith) (ground arith)
                    (λ stack' p n. segments-Left fuel ys stack' p n (depth + 1))))
        ]
      ]
    where
      parts :
          (ys : List A) (lt gt : ℕ)
          → Same xs ys
          → gt ≤ nmemb
          → lt + (nmemb - gt) < nmemb
          → 6 < nmemb
          → depth + 1 ≤ 50
          → ((stack' : List (ℕ × ℕ × ℕ)) (p n : ℕ)
              → p + n ≤ length ys
              → Stacked (length ys) stack'
              → length stack' ≤ depth + 1
              → depth + 1 ≤ 50
              → 52 ≤ fuel + (depth + 1)
              → Left ys stack' n (segments cmp fuel ys stack' p n (depth + 1)))
          → Left xs stack nmemb
              (elim (ltb (nmemb - gt) lt) as (λ b. Option (List A × List (ℕ × ℕ × ℕ) × ℕ × ℕ)) [
                | true ↦ push_segment stack ptr lt (depth + 1) >>= λ stack'.
                    segments cmp fuel ys stack' (ptr + gt) (nmemb - gt) (depth + 1)
                | false ↦ push_segment stack (ptr + gt) (nmemb - gt) (depth + 1) >>= λ stack'.
                    segments cmp fuel ys stack' ptr lt (depth + 1)
              ])
      parts ys lt gt s g smaller many d again = elim (Bool-cases (ltb (nmemb - gt) lt)) [
        | inl left ↦
            (let (zs, st, p, n, e, t, r, w, u) =
                again ((ptr, lt, depth + 1) ∷ stack) (ptr + gt) (nmemb - gt) (omega (arith, s.0))
                  (omega (arith, s.0), d, omega arith, subst (λ k. Stacked k stack) (sym s.0) v)
                  (omega arith) d (omega arith) in
              rw (left, push_lem stack ptr lt (depth + 1) (omega arith))
                (
                  zs,
                  st,
                  p,
                  n,
                  e,
                  Same-trans xs ys zs s t,
                  λ h. omega (arith, r h, s.0),
                  subst (λ k. Stacked k st) s.0 w,
                  omega arith,
                ))
        | inr right ↦
            (let (zs, st, p, n, e, t, r, w, u) =
                again ((ptr + gt, nmemb - gt, depth + 1) ∷ stack) ptr lt (omega (arith, s.0))
                  (omega (arith, s.0), d, omega arith, subst (λ k. Stacked k stack) (sym s.0) v)
                  (omega arith) d (omega arith) in
              rw (right, push_lem stack (ptr + gt) (nmemb - gt) (depth + 1) (omega arith))
                (
                  zs,
                  st,
                  p,
                  n,
                  e,
                  Same-trans xs ys zs s t,
                  λ h. omega (arith, r h, s.0),
                  subst (λ k. Stacked k st) s.0 w,
                  omega arith,
                ))
      ]

  rqsort_loop-Same :
      (fuel : ℕ) (xs : List A) (stack : List (ℕ × ℕ × ℕ))
      → Stacked (length xs) stack
      → rounds stack ≤ fuel
      → (ys : List A) × (rqsort_loop cmp fuel xs stack ≡ some ys) × Same xs ys
  unfolding rqsort_loop
  rqsort_loop-Same fuel xs [] v enough = (xs, refl, Same-refl xs)
  rqsort_loop-Same zero xs ((base, n, depth) ∷ stack) v enough = absurd (omega arith)
  rqsort_loop-Same (suc fuel) xs ((base, n, depth) ∷ stack) v enough =
      let (ys, st, p, m, e1, s, r, w, u) =
        segments-Left 52 xs stack base n depth v.0 v.3 v.2 v.1 (omega arith) in
      let (zs, e2, t) =
        insertion_sort-Same (m - 1) 1 ys p (λ h. omega (arith, r (omega arith), s.0)) in
      let (ws, e3, x) =
        rqsort_loop-Same fuel zs st (subst (λ k. Stacked k st) (sym (t.0 ∙ s.0)) w) (omega arith) in
      (ws, rw (e1, e2) e3, Same-trans xs ys ws s (Same-trans ys zs ws t x))

  -- `rqsort` on elements of an array, by any comparison whatever, lawful or not: it never leaves the
  -- array or its own stack of 50 segments, it ends within one round for each element, and the array has
  -- the same elements as before, as often.
  pub rqsort-Same :
      (xs : List A) (nmemb : ℕ)
      → nmemb ≤ length xs
      → (ys : List A) × (rqsort cmp xs nmemb ≡ some ys)
        × (length ys ≡ length xs)
        × ((q : A → Bool) → count q ys ≡ count q xs)
  unfolding rqsort
  rqsort-Same xs nmemb room = elim (Bool-cases (ltb nmemb 2)) [
    | inl few ↦ rw few (xs, refl, refl, λ q. refl)
    | inr more ↦
        (let (ys, e, s) =
            rqsort_loop-Same nmemb xs ((0, nmemb, 0) ∷ [])
              (omega arith, omega arith, omega arith, tt) (ground arith) in
          rw more (ys, e, s.0, s.1))
  ]
