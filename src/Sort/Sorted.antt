-- ===== src/Sort/Sorted.antt =====
-- `rqsort` puts the array in order.
use substrata_swift.Prelude.{ℕ, zero, suc, ◌+◌, ◌-◌, ◌≤◌, ◌≡◌, refl, arith, ltb}
use substrata_swift.Prelude.{Bool, true, false, Option, none, some, ◌>>=◌, List, [], ◌∷◌, length}
use substrata_swift.Prelude.{Bool-cases, inl, inr}
use Prim.Native.Nat.{Ordering}
use mathlib.Core.Path.{subst}
use substrata_swift.Sort.{insertion_sort, push_segment, segments, rqsort_loop, rqsort}
use substrata_swift.Sort.Same.{count}
use substrata_swift.Sort.Keys.{Keyed}
use substrata_swift.Sort.Heaps.{Moved}
use substrata_swift.Sort.Ordered.{IsSorted, heapsortx-IsSorted}
use substrata_swift.Sort.Insertion.{insertion_sort-IsSorted}
use substrata_swift.Sort.Divide.{Divided, split-Divided}
use substrata_swift.Sort.Pending.{Away, Sound, Away-within}
use substrata_swift.Sort.Pending.{InOrder, refined, settled, zones, carried}
use substrata_swift.Sort.Runs.{rqsort-Same}

module _ {ℓ} {A : Type ℓ} (key : A → ℕ) (n : ℕ) where
  -- What is left of a segment is at hand, the others are on the stack.
  abbrev Ready : Option (List A × List (ℕ × ℕ × ℕ) × ℕ × ℕ) → Type 0
  Ready none = Unit
  Ready (some (ys, stack, ptr, m)) =
      (n ≤ length ys) × Sound n ((ptr, m, 0) ∷ stack) × InOrder key n ((ptr, m, 0) ∷ stack) ys

  abbrev Done : Option (List A) → Type 0
  Done none = Unit
  Done (some ys) = InOrder key n [] ys

  push-Ready :
      (stack : List (ℕ × ℕ × ℕ)) (b c d : ℕ)
      (f : List (ℕ × ℕ × ℕ) → Option (List A × List (ℕ × ℕ × ℕ) × ℕ × ℕ))
      → Ready (f ((b, c, d) ∷ stack))
      → Ready (push_segment stack b c d >>= f)
  unfolding push_segment
  push-Ready stack b c d f r = elim (Bool-cases (ltb (length stack) 50)) [
    | inl room ↦ rw room r
    | inr full ↦ rw full tt
  ]

  module _ (cmp : A → A → Ordering) (keyed : Keyed cmp key) where
    segments-Ready :
        (fuel : ℕ) (xs : List A) (stack : List (ℕ × ℕ × ℕ)) (ptr nmemb depth : ℕ)
        → n ≤ length xs
        → Sound n ((ptr, nmemb, 0) ∷ stack)
        → InOrder key n ((ptr, nmemb, 0) ∷ stack) xs
        → Ready (segments cmp fuel xs stack ptr nmemb depth)
    unfolding segments
    segments-Ready zero xs stack ptr nmemb depth room sound o = tt
    segments-Ready (suc fuel) xs stack ptr nmemb depth room sound o =
        elim (Bool-cases (ltb 6 nmemb)) [
          | inr few ↦ rw (few, segments) (room, sound, o)
          | inl many ↦ elim (Bool-cases (ltb 50 (depth + 1))) [
            | inl bottom ↦
                (let (ys, e, sorted, s) =
                    heapsortx-IsSorted key ptr cmp keyed xs nmemb (omega (arith, sound.0)) in
                  rw (many, segments, bottom, e)
                    (
                      omega (arith, s.same.0),
                      (
                        omega (arith, sound.0),
                        Away-within stack ptr nmemb ptr 0 (omega arith) (omega arith) sound.1,
                        sound.2,
                      ),
                      λ i j le l.
                          elim (settled key n ptr nmemb 0 stack ys sorted
                            (carried key n ptr nmemb 0 stack xs ys sound.0 sound.1 s o) i j le l) [
                              | inl h ↦ inl h
                              | inr t ↦ inr (inr t)
                            ],
                    ))
            | inr above ↦
                (let (ys, lt, gt, v, e, d, s, between, fits, less) =
                    split-Divided key cmp keyed xs ptr nmemb (ground arith)
                      (omega (arith, sound.0)) in
                  rw (many, segments, above, e)
                    (parts ys lt gt v (omega (arith, s.same.0)) d between fits
                      (carried key n ptr nmemb 0 stack xs ys sound.0 sound.1 s o)
                      (λ stack' p m. segments-Ready fuel ys stack' p m (depth + 1))))
          ]
        ]
      where
        parts :
            (ys : List A) (lt gt v : ℕ)
            → n ≤ length ys
            → Divided key ptr nmemb lt gt v ys
            → lt ≤ gt
            → gt ≤ nmemb
            → InOrder key n ((ptr, nmemb, 0) ∷ stack) ys
            → ((stack' : List (ℕ × ℕ × ℕ)) (p m : ℕ)
                → n ≤ length ys
                → Sound n ((p, m, 0) ∷ stack')
                → InOrder key n ((p, m, 0) ∷ stack') ys
                → Ready (segments cmp fuel ys stack' p m (depth + 1)))
            → Ready
                (elim (ltb (nmemb - gt) lt) as (λ b. Option (List A × List (ℕ × ℕ × ℕ) × ℕ × ℕ)) [
                  | true ↦ push_segment stack ptr lt (depth + 1) >>= λ stack'.
                      segments cmp fuel ys stack' (ptr + gt) (nmemb - gt) (depth + 1)
                  | false ↦ push_segment stack (ptr + gt) (nmemb - gt) (depth + 1) >>= λ stack'.
                      segments cmp fuel ys stack' ptr lt (depth + 1)
                ])
        parts ys lt gt v room' d between fits o' again =
            let low : Away ptr lt stack =
              Away-within stack ptr nmemb ptr lt (omega arith) (omega arith) sound.1 in
            let high : Away (ptr + gt) (nmemb - gt) stack =
              Away-within stack ptr nmemb (ptr + gt) (nmemb - gt) (omega arith) (omega arith)
                sound.1 in
            elim (Bool-cases (ltb (nmemb - gt) lt)) [
              | inl left ↦ rw left (
                  push-Ready stack ptr lt (depth + 1)
                    (λ stack'. segments cmp fuel ys stack' (ptr + gt) (nmemb - gt) (depth + 1))
                    (again ((ptr, lt, depth + 1) ∷ stack) (ptr + gt) (nmemb - gt) room'
                      (
                        omega (arith, sound.0),
                        (inr (omega arith), high),
                        (omega (arith, sound.0), low, sound.2),
                      )
                      (refined key n ptr nmemb 0 stack
                        ((ptr + gt, nmemb - gt, 0) ∷ (ptr, lt, depth + 1) ∷ stack) ys
                        (λ i j le x y. elim (zones key ptr nmemb lt gt v i j ys d le between x y) [
                          | inl h ↦ inl h
                          | inr t ↦ elim t [ inl a ↦ inr (inr (inl a)) | inr b ↦ inr (inl b) ]
                        ])
                        (λ i j s. inr (inr s)) o')))
              | inr right ↦ rw right (
                  push-Ready stack (ptr + gt) (nmemb - gt) (depth + 1)
                    (λ stack'. segments cmp fuel ys stack' ptr lt (depth + 1))
                    (again ((ptr + gt, nmemb - gt, depth + 1) ∷ stack) ptr lt room'
                      (
                        omega (arith, sound.0),
                        (inl (omega arith), low),
                        (omega (arith, sound.0), high, sound.2),
                      )
                      (refined key n ptr nmemb 0 stack
                        ((ptr, lt, 0) ∷ (ptr + gt, nmemb - gt, depth + 1) ∷ stack) ys
                        (λ i j le x y. elim (zones key ptr nmemb lt gt v i j ys d le between x y) [
                          | inl h ↦ inl h
                          | inr t ↦ elim t [ inl a ↦ inr (inl a) | inr b ↦ inr (inr (inl b)) ]
                        ])
                        (λ i j s. inr (inr s)) o')))
            ]

    none_left : (xs : List A) (ptr : ℕ) → insertion_sort cmp (0 - 1) 1 xs ptr ≡ some xs
    unfolding insertion_sort
    none_left xs ptr = refl

    -- The insertion sort settles what is left of the segment.
    last_segment :
        (xs : List A) (stack : List (ℕ × ℕ × ℕ)) (ptr m : ℕ)
        → n ≤ length xs
        → Sound n ((ptr, suc m, 0) ∷ stack)
        → InOrder key n ((ptr, suc m, 0) ∷ stack) xs
        → (ys : List A) × (insertion_sort cmp m 1 xs ptr ≡ some ys)
          × (n ≤ length ys)
          × InOrder key n stack ys
    last_segment xs stack ptr m room sound o =
        let (ys, e, sorted, s) =
          insertion_sort-IsSorted key ptr cmp keyed m 1 xs (omega (arith, sound.0))
            (λ a b le l. let same : a ≡ b = omega (arith, le, l) in rw same (omega arith)) in
        let one : 1 + m ≡ suc m = omega arith in
        let (sorted', s') =
          subst (λ c. IsSorted key ptr c ys × Moved key ptr c xs ys) one (sorted, s) in
        (
          ys,
          e,
          omega (arith, s'.same.0),
          settled key n ptr (suc m) 0 stack ys sorted'
              (carried key n ptr (suc m) 0 stack xs ys sound.0 sound.1 s' o),
        )

    loop-Done :
        (fuel : ℕ) (xs : List A) (stack : List (ℕ × ℕ × ℕ))
        → n ≤ length xs
        → Sound n stack
        → InOrder key n stack xs
        → Done (rqsort_loop cmp fuel xs stack)
    unfolding rqsort_loop
    loop-Done zero xs [] room sound o = o
    loop-Done (suc fuel) xs [] room sound o = o
    loop-Done zero xs ((b, c, d) ∷ stack) room sound o = tt
    loop-Done (suc fuel) xs ((b, c, d) ∷ stack) room sound o =
        rest (segments cmp 52 xs stack b c d) (segments-Ready 52 xs stack b c d room sound o)
          (λ ys stack'. loop-Done fuel ys stack')
      where
        rest :
            (r : Option (List A × List (ℕ × ℕ × ℕ) × ℕ × ℕ))
            → Ready r
            → ((ys : List A) (stack' : List (ℕ × ℕ × ℕ))
                → n ≤ length ys
                → Sound n stack'
                → InOrder key n stack' ys
                → Done (rqsort_loop cmp fuel ys stack'))
            → Done (
                r >>= λ t. insertion_sort cmp (t.3 - 1) 1 t.0 t.2 >>= λ sorted.
                rqsort_loop cmp fuel sorted t.1)
        rest none ready again = tt
        rest (some (ys, stack', ptr, zero)) (room', sound', o') again = rw (none_left ys ptr) (
            again ys stack' room' sound'.2 (
              refined key n ptr 0 0 stack' stack' ys (λ i j le x y. absurd (omega (arith, x)))
                (λ i j s. s) o'))
        rest (some (ys, stack', ptr, suc m)) (room', sound', o') again =
            let (zs, e, inside, o2) = last_segment ys stack' ptr m room' sound' o' in
            let last : suc m - 1 ≡ m = omega arith in
            rw (last, e) (again zs stack' inside sound'.2 o2)

    rqsort-Done : (xs : List A) → n ≤ length xs → Done (rqsort cmp xs n)
    unfolding rqsort
    rqsort-Done xs room = elim (Bool-cases (ltb n 2)) [
      | inl few ↦
          rw few (λ i j le l. let same : i ≡ j = ground arith in inl (rw same (omega arith)))
      | inr more ↦ rw more (
          loop-Done n xs ((0, n, 0) ∷ []) room (omega arith, tt, tt)
            (λ i j le l.
              inr (inl ((omega arith, omega (arith, le, l)), (omega arith, omega (arith, l))))))
    ]

    -- `rqsort` by a comparison that is that of a key returns an array with the same elements, as often,
    -- of which the first `n` are in ascending order of their keys.
    pub rqsort-IsSorted :
        (xs : List A)
        → n ≤ length xs
        → (ys : List A) × (rqsort cmp xs n ≡ some ys)
          × IsSorted key 0 n ys
          × (length ys ≡ length xs)
          × ((q : A → Bool) → count q ys ≡ count q xs)
    rqsort-IsSorted xs room =
        let (ys, e, same, counts) = rqsort-Same cmp xs n room in
        (ys, e, sorted ys (rw e at (rqsort-Done xs room)), same, counts)
      where
        sorted : (ys : List A) → Done (some ys) → IsSorted key 0 n ys
        sorted ys o a b le l =
            let ea : 0 + a ≡ a = omega arith in
            let eb : 0 + b ≡ b = omega arith in
            rw (ea, eb) (elim (o a b le l) [ inl h ↦ h | inr s ↦ absurd s ])
