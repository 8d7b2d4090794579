-- ===== src/DynBuf/Tests.antt =====
-- Runs of the buffer functions of cutils.c, and their theorems at concrete inputs.
use substrata_swift.Prelude.{
  ℕ, zero, suc, ◌+◌, ◌^◌, ◌≤◌, ◌<◌, ◌≡◌, refl, ap, arith, true, false, leb,
}
use substrata_swift.Prelude.{
  Option, none, some, List, [], ◌∷◌, ◌++◌, length, take, length-append, length-take,
}
use substrata_swift.Prelude.{if◌then◌else◌, take-append_self, take-take}
use substrata_swift.DynBuf.{
  DynBuf, dbuf_init, dbuf_put, dbuf_realloc, reserve, append_at_end, copy_in,
}
use substrata_swift.DynBuf.Grow.{IsRealloc, IsValid}
use substrata_swift.DynBuf.Runs.{joined, put_all, Ran, put_all-Ran}

abbrev zeros : ℕ → List ℕ
zeros zero = []
zeros (suc n) = 0 ∷ zeros n

length-zeros : (n : ℕ) → length (zeros n) ≡ n
length-zeros zero = refl
length-zeros (suc n) = ap suc (length-zeros n)

-- A `realloc` that fails above a hundred bytes, and otherwise pads with zeros or cuts.
abbrev small_heap : List ℕ → ℕ → Option (List ℕ)
small_heap b n = if leb n 100 then some (take n (b ++ zeros n)) else none

small_heap_sized : (b : List ℕ) (n : ℕ) (r : List ℕ) → small_heap b n ≡ some r → length r ≡ n
small_heap_sized b n r h =
    ground (arith, length-take n (b ++ zeros n), length-append b (zeros n), length-zeros n)

small_heap_keeps :
    (b : List ℕ) (n : ℕ) (r : List ℕ)
    → small_heap b n ≡ some r
    → length b ≤ n
    → take (length b) r ≡ b
small_heap_keeps b n r h k =
    ground (arith, take-take (length b) n (b ++ zeros n) k, take-append_self b (zeros n))

small_heap-IsRealloc : IsRealloc small_heap
small_heap-IsRealloc = record { sized = small_heap_sized; keeps = small_heap_keeps }

abbrev two : DynBuf
two = record { buf = 7 ∷ 8 ∷ 0 ∷ []; size = 2; allocated_size = 3; error = false }

two-IsValid : IsValid two
two-IsValid = record { allocated = refl; used = omega arith; narrow = omega arith }

put_three :
    dbuf_put small_heap two (1 ∷ 2 ∷ 3 ∷ [])
    ≡ some
        (true, record { buf = 7 ∷ 8 ∷ 1 ∷ 2 ∷ 3 ∷ []; size = 5; allocated_size = 5; error = false })
unfolding dbuf_put reserve dbuf_realloc append_at_end copy_in
put_three = refl

dbuf_init-IsValid : IsValid dbuf_init
unfolding dbuf_init
dbuf_init-IsValid = record { allocated = refl; used = omega arith; narrow = omega arith }

chunks_fit : dbuf_init.size + length (joined ((1 ∷ 2 ∷ []) ∷ [] ∷ (3 ∷ []) ∷ [])) < 2 ^ 64
unfolding joined dbuf_init
chunks_fit = omega arith

put_all-Ran_example :
    (s' : DynBuf) × (put_all small_heap ((1 ∷ 2 ∷ []) ∷ [] ∷ (3 ∷ []) ∷ []) dbuf_init ≡ some s')
    × Ran small_heap dbuf_init s' (joined ((1 ∷ 2 ∷ []) ∷ [] ∷ (3 ∷ []) ∷ []))
put_all-Ran_example =
    put_all-Ran small_heap small_heap-IsRealloc ((1 ∷ 2 ∷ []) ∷ [] ∷ (3 ∷ []) ∷ []) dbuf_init
      dbuf_init-IsValid chunks_fit
