-- ===== src/Unicode/Combining.antt =====
-- Canonical combining classes in Sources/SubstrataQuickJS/libunicode.c: `unicode_get_cc` and `sort_cc`.
-- The tables `unicode_cc_table` and `unicode_cc_index` are parameters; `none` is a read past the end of
-- one.
use substrata_swift.Prelude.{ℕ, zero, suc, ◌+◌, ◌-◌, ◌*◌, ◌/◌, ◌%◌, ◌^◌, ltb, leb, ◌==◌}
use substrata_swift.Prelude.{if◌then◌else◌, true, false, Option, none, some, ◌>>=◌, ◌⊎◌}
use substrata_swift.Prelude.{inl, inr, List, length, get_elem?, drop, set}
use substrata_swift.Unicode.Table.{get_index_pos}

-- `n` and the bytes behind it, which the first byte of a run begins.
unfoldable pub run_len : List ℕ → Option (ℕ × List ℕ)
run_len p = do
  b ← get_elem? p 0
  let n = b % 64
  if ltb n 48
      then some (n, drop 1 p)
      else if ltb n 56
      then (do p0 ← get_elem? p 1; some ((n - 48) * 2 ^ 8 + p0 + 48, drop 2 p))
      else (do
        p0 ← get_elem? p 1
        p1 ← get_elem? p 2
        some ((n - 56) * 2 ^ 8 + p0 * 2 ^ 8 + p1 + (48 + 2 ^ 11), drop 3 p))

-- The `switch (type)`: `p` is where the class byte stands, for the types that have one.
unfoldable pub class_of_run : ℕ → List ℕ → ℕ → ℕ → Option ℕ
class_of_run type p c code =
    if type == 0
    then get_elem? p 0
    else if type == 1
    then (do first ← get_elem? p 0; some (first + c - code))
    else if type == 2
    then some 0
    else some 230

-- One round of `for(;;)` in `unicode_get_cc`: the class, or the bytes and code for the next round.
unfoldable pub cc_step : List ℕ → ℕ → ℕ → Option (ℕ ⊎ (List ℕ × ℕ))
cc_step p c code = do
  b ← get_elem? p 0
  (n, p') ← run_len p
  let type = b / 64
  if ltb c (code + n + 1)
      then (do cc ← class_of_run type p' c code; some (inl cc))
      else some (inr (if leb type 1 then drop 1 p' else p', code + n + 1))

-- Every round reads a byte of its own.
unfoldable pub cc_loop : ℕ → List ℕ → ℕ → ℕ → Option ℕ
cc_loop zero p c code = none
cc_loop (suc fuel) p c code = elim (cc_step p c code) [
  | none ↦ none
  | some (inl cc) ↦ some cc
  | some (inr (p', code')) ↦ cc_loop fuel p' c code'
]

-- `unicode_cc_table` and `unicode_cc_index`
unfoldable pub unicode_get_cc : List ℕ → List ℕ → ℕ → Option ℕ
unicode_get_cc table index c = do
  found ← get_index_pos c index (length index / 3)
  elim found [
    | none ↦ some 0
    | some (pos, code) ↦ cc_loop (suc (length table)) (drop pos table) c code
  ]

-- `get_cc` is `unicode_get_cc` with its tables.
module _ (get_cc : ℕ → Option ℕ) where
  -- `while (k >= start) …; buf[k + 1] = ch1;`, with `count` for `k + 1 - start`
  unfoldable pub shift_down : ℕ → List ℕ → ℕ → ℕ → ℕ → Option (List ℕ)
  shift_down zero buf start cc1 ch1 = some (set buf start ch1)
  shift_down (suc count) buf start cc1 ch1 = do
    ch ← get_elem? buf (start + count)
    cc ← get_cc ch
    elim (leb cc cc1) [
      | true ↦ some (set buf (start + suc count) ch1)
      | false ↦ shift_down count (set buf (start + suc count) ch) start cc1 ch1
    ]

  -- `while (j < len)`, for `left` places from `j` on: the buffer and `j` after it
  unfoldable pub insert_marks : ℕ → List ℕ → ℕ → ℕ → Option (List ℕ × ℕ)
  insert_marks zero buf start j = some (buf, j)
  insert_marks (suc left) buf start j = do
    ch1 ← get_elem? buf j
    cc1 ← get_cc ch1
    elim (cc1 == 0) [
      | true ↦ some (buf, j)
      | false ↦ do
        buf' ← shift_down (j - start) buf start cc1 ch1
        insert_marks left buf' start (j + 1)
    ]

  -- `for (i = 0; i < len; i++)`, with the buffer as long as `len`; after a run of marks `i` is `j + 1`.
  unfoldable pub sort_loop : ℕ → List ℕ → ℕ → Option (List ℕ)
  sort_loop zero buf i = none
  sort_loop (suc fuel) buf i = elim (ltb i (length buf)) [
    | false ↦ some buf
    | true ↦ do
      ch ← get_elem? buf i
      cc ← get_cc ch
      elim (cc == 0) [
        | true ↦ sort_loop fuel buf (i + 1)
        | false ↦ do
          (buf', j) ← insert_marks (length buf - (i + 1)) buf i (i + 1)
          sort_loop fuel buf' (j + 1)
      ]
  ]

  unfoldable pub sort_cc : List ℕ → Option (List ℕ)
  sort_cc buf = sort_loop (suc (length buf)) buf 0
