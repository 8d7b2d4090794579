-- ===== src/DynBuf/Append.antt =====
-- What `dbuf_put` and `dbuf_put_self` leave in a buffer.
use mathlib.Core.List.{append_assoc, append-nil}
use substrata_swift.Prelude.{
  ℕ, zero, suc, ◌+◌, ◌^◌, ◌≤◌, ◌<◌, ◌≡◌, refl, sym, ap, ◌∙◌, arith, Bool, true, false, leb,
}
use substrata_swift.Prelude.{
  Option, none, some, List, [], ◌∷◌, ◌++◌, length, take, drop, length-append, length-take,
  length-drop,
}
use substrata_swift.Prelude.{take-append_self, take-take, lt→ltb, Bool-cases, inl, inr}
use substrata_swift.DynBuf.{
  DynBuf, add_size, copy_in, copy_out, reserve, append_at_end, dbuf_put, dbuf_put_self,
}
use substrata_swift.DynBuf.Grow.{IsRealloc, IsValid, contents, reserve-Grown}

-- A call that appends `added`: done, with the buffer holding it at the end; or refused, with the
-- error mark set and the contents as before. The mark is never taken back, and nothing is copied
-- outside of a block.
abbrev pub Appended : DynBuf → List ℕ → Option (Bool × DynBuf) → Type 0
Appended s added none = ⊥
Appended s added (some (true, s')) =
    IsValid s'
    × (contents s' ≡ contents s ++ added)
    × (s'.size ≡ s.size + length added)
    × (s.error ≡ true → s'.error ≡ true)
Appended s added (some (false, s')) =
    IsValid s' × (contents s' ≡ contents s) × (s'.size ≡ s.size) × (s'.error ≡ true)

length-copy :
    (block bytes : List ℕ) (n : ℕ)
    → n + length bytes ≤ length block
    → length (take n block ++ (bytes ++ drop (n + length bytes) block)) ≡ length block
length-copy block bytes n h = omega (
  arith,
  length-append (take n block) (bytes ++ drop (n + length bytes) block),
  length-append bytes (drop (n + length bytes) block),
  length-take n block,
  length-drop (n + length bytes) block,
)

take-copy :
    (block bytes : List ℕ) (n : ℕ)
    → n + length bytes ≤ length block
    → take (n + length bytes) (take n block ++ (bytes ++ drop (n + length bytes) block))
      ≡ take n block ++ bytes
take-copy block bytes n h =
    let front = take n block ++ bytes in
    let back = drop (n + length bytes) block in
    let size : n + length bytes ≡ length front =
      omega (arith, length-append (take n block) bytes, length-take n block) in
    ap (λ (k : ℕ). take k (take n block ++ (bytes ++ back))) size
    ∙ ap (take (length front)) (sym (append_assoc (take n block) bytes back))
    ∙ take-append_self front back

append_at_end-Appended :
    (s : DynBuf) (bytes : List ℕ)
    → IsValid s
    → s.size + length bytes ≤ s.allocated_size
    → Appended s bytes (append_at_end s bytes)
unfolding append_at_end copy_in
append_at_end-Appended s bytes v h =
    rw (fits, whole)
      (
        record {
          allocated = v.allocated ∙ sym (length-copy s.buf bytes s.size (omega arith));
          used = omega arith;
          narrow = v.narrow;
        },
        take-copy s.buf bytes s.size (omega arith),
        refl,
        λ e. e,
      )
  where
    fits : leb (s.size + length bytes) (length s.buf) ≡ true
    fits = ground arith

    whole : add_size s.size (length bytes) ≡ s.size + length bytes
    whole = omega arith

Appended-from :
    (s s' : DynBuf) (added : List ℕ) (out : Option (Bool × DynBuf))
    → s'.size ≡ s.size
    → contents s' ≡ contents s
    → (s.error ≡ true → s'.error ≡ true)
    → Appended s' added out
    → Appended s added out
Appended-from s s' added none size held mark h = h
Appended-from s s' added (some (true, t)) size held mark h =
    (h.0, rw (← held) h.1, omega arith, λ e. h.3 (mark e))
Appended-from s s' added (some (false, t)) size held mark h =
    (h.0, rw (← held) h.1, omega arith, h.3)

-- A part of a list that lies inside of its first `n` elements.
slice-take :
    (offset len n : ℕ) (xs : List ℕ)
    → offset + len ≤ n
    → take len (drop offset xs) ≡ take len (drop offset (take n xs))
slice-take zero len n xs h = sym (take-take len n xs (omega arith))
slice-take (suc offset) len zero xs h = absurd (omega arith)
slice-take (suc offset) len (suc n) [] h = refl
slice-take (suc offset) len (suc n) (x ∷ xs) h = slice-take offset len n xs (omega arith)

held :
    (s : DynBuf) (offset len : ℕ)
    → IsValid s
    → offset + len ≤ s.size
    → length (take len (drop offset (contents s))) ≡ len
held s offset len v h = omega (
  arith,
  length-take len (drop offset (contents s)),
  length-drop offset (contents s),
  length-take s.size s.buf,
)

module _ (realloc_func : List ℕ → ℕ → Option (List ℕ)) (law : IsRealloc realloc_func) where
  -- After a reservation that was made there is room.
  reserved-Appended :
      (s : DynBuf) (bytes : List ℕ) (len : ℕ)
      → IsValid s
      → length bytes ≡ len
      → s.size + len < 2 ^ 64
      → (reserve realloc_func s len).0 ≡ true
      → Appended s bytes (append_at_end (reserve realloc_func s len).1 bytes)
  reserved-Appended s bytes len v size w done =
      let g = reserve-Grown realloc_func law s len v in
      let s' = (reserve realloc_func s len).1 in
      let room = g.room done in
      Appended-from s s' bytes (append_at_end s' bytes) g.same_size g.same_contents g.sticky
        (append_at_end-Appended s' bytes g.valid (omega (arith, g.same_size)))

  -- A reservation that was refused.
  refused-Appended :
      (s : DynBuf) (added : List ℕ) (len : ℕ)
      → IsValid s
      → (reserve realloc_func s len).0 ≡ false
      → Appended s added (some (false, (reserve realloc_func s len).1))
  refused-Appended s added len v refused =
      let g = reserve-Grown realloc_func law s len v in
      (g.valid, g.same_contents, g.same_size, g.failed refused)

  -- On a valid buffer with a lawful `realloc`, and a sum of sizes below 2^64, `dbuf_put` copies inside
  -- its block, keeps the buffer valid, and appends all the bytes, or returns -1 and leaves the contents.
  pub dbuf_put-Appended :
      (s : DynBuf) (bytes : List ℕ)
      → IsValid s
      → s.size + length bytes < 2 ^ 64
      → Appended s bytes (dbuf_put realloc_func s bytes)
  unfolding dbuf_put
  dbuf_put-Appended s [] v w =
      let g = reserve-Grown realloc_func law s 0 v in
      elim (Bool-cases (reserve realloc_func s 0).0) [
        | inl done ↦ rw done (
          g.valid,
          g.same_contents ∙ sym (append-nil (contents s)),
          omega (arith, g.same_size),
          g.sticky,
        )
        | inr refused ↦ rw refused (refused-Appended s [] 0 v refused)
      ]
  dbuf_put-Appended s (b ∷ bs) v w =
      elim (Bool-cases (reserve realloc_func s (suc (length bs))).0) [
        | inl done ↦
            rw (done, lt→ltb 0 (suc (length bs)) (omega arith))
              (reserved-Appended s (b ∷ bs) (suc (length bs)) v refl w done)
        | inr refused ↦ rw refused (refused-Appended s (b ∷ bs) (suc (length bs)) v refused)
      ]

  -- On the same conditions, for a part that lies inside the contents, `dbuf_put_self` copies inside its
  -- block and appends that part of the old contents, or returns -1 and leaves them.
  pub dbuf_put_self-Appended :
      (s : DynBuf) (offset len : ℕ)
      → IsValid s
      → offset + len ≤ s.size
      → s.size + len < 2 ^ 64
      → Appended s (take len (drop offset (contents s))) (dbuf_put_self realloc_func s offset len)
  unfolding dbuf_put_self copy_out
  dbuf_put_self-Appended s offset len v inside w =
      let g = reserve-Grown realloc_func law s len v in
      let s' = (reserve realloc_func s len).1 in
      let read : leb (offset + len) (length s'.buf) ≡ true =
        ground (arith, g.valid.allocated, g.valid.used, g.same_size) in
      let same : take len (drop offset s'.buf) ≡ take len (drop offset (contents s)) =
        slice-take offset len s'.size s'.buf (omega (arith, g.same_size))
        ∙ ap (λ (t : List ℕ). take len (drop offset t)) g.same_contents in
      elim (Bool-cases (reserve realloc_func s len).0) [
        | inl done ↦
            rw (done, read, same)
              (reserved-Appended s (take len (drop offset (contents s))) len v
                (held s offset len v inside) w done)
        | inr refused ↦
            rw refused (refused-Appended s (take len (drop offset (contents s))) len v refused)
      ]
