-- ===== src/Sort/Ordered.antt =====
-- `heapsortx` ends with its segment in order.
use substrata_swift.Prelude.{ℕ, zero, suc, ◌+◌, ◌-◌, ◌/◌, ◌<◌, ◌≤◌, ◌≡◌, refl, arith, ltb}
use substrata_swift.Prelude.{some, List, length, Bool-cases, inl, inr, ==_iff}
use Prim.Native.Nat.{Ordering}
use substrata_swift.Sort.{build_heap, take_max, heapsortx}
use substrata_swift.Sort.Keys.{Keyed, key_at, Swapped, swap-Swapped}
use substrata_swift.Sort.Heaps.{IsHeap, Broken, Moved, Moved-refl, Moved-trans}
use substrata_swift.Sort.Heaps.{Swapped-Moved, sift-IsHeap, segment_after}

module _ {ℓ} {A : Type ℓ} (key : A → ℕ) (base : ℕ) where
  -- The first `n` are in ascending order.
  abbrev pub IsSorted : ℕ → List A → Type 0
  IsSorted n xs = (a b : ℕ) → a ≤ b → b < n → key_at key xs (base + a) ≤ key_at key xs (base + b)

  -- Those behind `i` are in order, and none is less than one up to `i`.
  record HasTail (i n : ℕ) (xs : List A) : Type 0 where
    split : (a b : ℕ) → a ≤ i → i < b → b < n → key_at key xs (base + a) ≤ key_at key xs (base + b)
    sorted : (a b : ℕ) → i < a → a ≤ b → b < n → key_at key xs (base + a) ≤ key_at key xs (base + b)

  pub Moved-widen :
      (n m : ℕ) (xs ys : List A) → n ≤ m → Moved key base n xs ys → Moved key base m xs ys
  Moved-widen n m xs ys le a = record {
    same = a.same;
    outside = λ k h. a.outside k (ground (arith, h));
    inside = λ bound h k l. ground (
      arith,
      a.inside bound (λ j j_in. h j (omega (arith, j_in, le))) k,
      a.outside (base + k),
      h k l,
    );
    above = λ bound h k l. ground (
      arith,
      a.above bound (λ j j_in. h j (omega (arith, j_in, le))) k,
      a.outside (base + k),
      h k l,
    );
  }

  -- The root of a heap is its maximum.
  root_most :
      (fuel n j : ℕ) (xs : List A)
      → j < fuel
      → IsHeap key base 0 n xs
      → j < n
      → key_at key xs (base + j) ≤ key_at key xs (base + 0)
  root_most zero n j xs enough heap l = absurd (omega arith)
  root_most (suc fuel) n zero xs enough heap l = omega arith
  root_most (suc fuel) n (suc j) xs enough heap l =
      let up = root_most fuel n (j / 2) xs (omega arith) heap (omega arith) in
      let edge = heap (j / 2) (suc j) (omega arith) (ground arith) l in omega (arith, up, edge)

  module _ (cmp : A → A → Ordering) (keyed : Keyed cmp key) where
    build_heap-IsHeap :
        (i : ℕ) (xs : List A) (n : ℕ)
        → i ≤ n
        → base + n ≤ length xs
        → IsHeap key base i n xs
        → (ys : List A) × (build_heap cmp i xs base n ≡ some ys)
          × IsHeap key base 0 n ys
          × Moved key base n xs ys
    unfolding build_heap
    build_heap-IsHeap zero xs n le room heap = (xs, refl, heap, Moved-refl key base n xs)
    build_heap-IsHeap (suc i) xs n le room heap =
        let broken : Broken key base i n i xs = record {
          edges = λ p c lo apart is l. heap p c (ground arith) is l;
          bridged = λ p c lo is is' l. absurd (ground arith);
        } in
        let (ys, e, once, s) =
          sift-IsHeap key base cmp keyed (suc n) xs i i n (omega arith) (omega arith) room
            (omega arith) broken in
        let (zs, e', done, t) =
          build_heap-IsHeap i ys n (omega arith) (omega (arith, s.same.0)) once in
        (zs, rw e e', done, Moved-trans key base n xs ys zs s t)

    -- One round: the maximum goes to the end of the heap.
    after_round :
        (i : ℕ) (xs ys : List A)
        → IsHeap key base 0 (suc (suc i)) xs
        → Swapped key xs (base + 0) (base + suc i) ys
        → Broken key base 0 (suc i) 0 ys
    after_round i xs ys heap s = record {
      edges = λ p c lo apart is l. ground (
        arith,
        segment_after key base cmp keyed 0 (suc i) xs ys s p,
        segment_after key base cmp keyed 0 (suc i) xs ys s c,
        heap p c,
      );
      bridged = λ p c lo is is' l. absurd (ground arith);
    }

    round_tail :
        (i n : ℕ) (xs ys zs : List A)
        → suc i < n
        → IsHeap key base 0 (suc (suc i)) xs
        → HasTail (suc i) n xs
        → Swapped key xs (base + 0) (base + suc i) ys
        → Moved key base (suc i) ys zs
        → HasTail i n zs
    round_tail i n xs ys zs room heap tail s t =
        let new = segment_after key base cmp keyed 0 (suc i) xs ys s in
        let most = λ (k : ℕ) (l : k < suc (suc i)).
          root_most (suc k) (suc (suc i)) k xs (omega arith) heap l in
        let behind : (b : ℕ) → i < b → key_at key zs (base + b) ≡ key_at key ys (base + b) =
          λ b l. t.outside (base + b) (inr (omega (arith, l))) in
        record {
          split = λ a b low high b_in.
              t.inside (key_at key zs (base + b))
                (λ k l. ground (
                  arith,
                  behind b high,
                  new k,
                  new b,
                  most k (omega (arith, l)),
                  most (suc i) (omega arith),
                  tail.split k b,
                  tail.split (suc i) b,
                ))
                a (omega (arith, low));
          sorted = λ a b low le b_in. ground (
            arith,
            behind a low,
            behind b (omega (arith, low, le)),
            new a,
            new b,
            tail.sorted a b,
            tail.split 0 b,
            ==_iff a b,
          );
        }

    take_max-IsSorted :
        (i n : ℕ) (xs : List A)
        → i < n
        → base + n ≤ length xs
        → IsHeap key base 0 (suc i) xs
        → HasTail i n xs
        → (ys : List A) × (take_max cmp i xs base ≡ some ys)
          × IsSorted n ys
          × Moved key base n xs ys
    unfolding take_max
    take_max-IsSorted zero n xs l room heap tail = (
      xs,
      refl,
      λ a b le b_in. ground (arith, tail.split a b, tail.sorted a b),
      Moved-refl key base n xs,
    )
    take_max-IsSorted (suc i) n xs l room heap tail =
        let at_zero : base + 0 ≡ base = omega arith in
        let (ys, e, s0) = swap-Swapped key xs base (base + suc i) (omega arith) (omega arith) in
        let s : Swapped key xs (base + 0) (base + suc i) ys = rw at_zero s0 in
        let (zs, e', heap', t) =
          sift-IsHeap key base cmp keyed (suc (suc i)) ys 0 0 (suc i) (omega arith) (omega arith)
            (omega (arith, s.same.0)) (omega arith) (after_round i xs ys heap s) in
        let (ws, e2, done, u) =
          take_max-IsSorted i n zs (omega arith) (omega (arith, s.same.0, t.same.0)) heap'
            (round_tail i n xs ys zs l heap tail s t) in
        let first = Swapped-Moved key base n 0 (suc i) xs ys (omega arith) l s in
        (
          ws,
          rw (e, e') e2,
          done,
          Moved-trans key base n xs ys ws first
              (Moved-trans key base n ys zs ws (Moved-widen (suc i) n ys zs (omega arith) t) u),
        )

    -- `heapsortx` on a segment inside of the array puts it in ascending order of the keys, keeps the
    -- elements, and leaves those outside of the segment as they are.
    pub heapsortx-IsSorted :
        (xs : List A) (nmemb : ℕ)
        → base + nmemb ≤ length xs
        → (ys : List A) × (heapsortx cmp xs base nmemb ≡ some ys)
          × IsSorted nmemb ys
          × Moved key base nmemb xs ys
    unfolding heapsortx
    heapsortx-IsSorted xs nmemb room = elim (Bool-cases (ltb 1 nmemb)) [
      | inr few ↦ rw few (
        xs,
        refl,
        λ a b le l.
            let one : nmemb ≤ 1 = ground arith in
            let same : a ≡ b = omega (arith, one, le, l) in rw same (omega arith),
        Moved-refl key base nmemb xs,
      )
      | inl many ↦
          (let more : 1 < nmemb = ground arith in
            let (ys, e, heap, s) =
              build_heap-IsHeap (nmemb / 2) xs nmemb (omega arith) room
                (λ p c lo is l. absurd (ground (arith, lo, is, l))) in
            let fits : suc (nmemb - 1) ≡ nmemb = omega (arith, more) in
            let (zs, e', done, t) =
              take_max-IsSorted (nmemb - 1) nmemb ys (omega (arith, more)) (omega (arith, s.same.0))
                (rw fits heap)
                (record {
                  split = λ a b low high b_in. absurd (omega (arith, high, b_in));
                  sorted = λ a b low le b_in. absurd (omega (arith, low, le, b_in));
                }) in
            rw (many, e, e') (zs, refl, done, Moved-trans key base nmemb xs ys zs s t))
    ]
