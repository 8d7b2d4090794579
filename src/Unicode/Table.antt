-- ===== src/Unicode/Table.antt =====
-- The compressed property tables in Sources/SubstrataQuickJS/libunicode.c: `get_le24`,
-- `get_index_pos`, `lre_is_in_table`, `lre_is_cased` and `lre_is_case_ignorable`. The tables of
-- libunicode-table.h are parameters; `none` is a read past the end of one.
use substrata_swift.Prelude.{ℕ, zero, suc, ◌+◌, ◌-◌, ◌*◌, ◌/◌, ◌%◌, ◌^◌, ltb, leb, if◌then◌else◌}
use substrata_swift.Prelude.{Bool, true, false, not, Option, none, some, ◌>>=◌, ◌⊎◌, inl, inr}
use substrata_swift.Prelude.{List, length, get_elem?, drop}
use substrata_swift.Unicode.Search.{find_entry}

-- The three bytes are disjoint bits of the result.
unfoldable pub get_le24 : List ℕ → ℕ → Option ℕ
get_le24 bytes at = do
  b0 ← get_elem? bytes at
  b1 ← get_elem? bytes (at + 1)
  b2 ← get_elem? bytes (at + 2)
  some (b0 + b1 * 2 ^ 8 + b2 * 2 ^ 16)

-- `while ((idx_max - idx_min) > 1)`: `idx_min` after it
unfoldable pub index_loop : ℕ → List ℕ → ℕ → ℕ → ℕ → Option ℕ
index_loop zero index c idx_min idx_max = none
index_loop (suc fuel) index c idx_min idx_max =
    let idx = (idx_max + idx_min) / 2 in
    elim (ltb 1 (idx_max - idx_min)) [
      | false ↦ some idx_min
      | true ↦ elim (get_le24 index (idx * 3)) [
        | none ↦ none
        | some v ↦ elim (ltb c (v % 2 ^ 21)) [
          | true ↦ index_loop fuel index c idx_min idx
          | false ↦ index_loop fuel index c idx idx_max
        ]
      ]
    ]

-- The offset in the table and the code, or `some none` for -1.
unfoldable pub get_index_pos : ℕ → List ℕ → ℕ → Option (Option (ℕ × ℕ))
get_index_pos c index index_len = do
  first ← get_le24 index 0
  last ← get_le24 index ((index_len - 1) * 3)
  if ltb c (first % 2 ^ 21) then some (some (0, 0)) else if leb last c then some none else (do
    idx ← index_loop index_len index c 0 (index_len - 1)
    v ← get_le24 index (idx * 3)
    some (some ((idx + 1) * 32 + v / 2 ^ 21, v % 2 ^ 21)))

-- `if (c < code) return bit; bit ^= 1;`: the answer, or the bytes, code and bit that the loop goes on
-- with.
unfoldable pub advance : List ℕ → ℕ → ℕ → Bool → Bool ⊎ (List ℕ × ℕ × Bool)
advance p c code bit = if ltb c code then inl bit else inr (p, code, not bit)

-- One round of `for(;;)` in `lre_is_in_table`, on the bytes from `p` on. A byte below 64 holds two runs.
unfoldable pub run_step : List ℕ → ℕ → ℕ → Bool → Option (Bool ⊎ (List ℕ × ℕ × Bool))
run_step p c code bit = do
  b ← get_elem? p 0
  let middle = code + b / 8 + 1
  if ltb b 64
      then (if ltb c middle
          then some (inl bit)
          else some (advance (drop 1 p) c (middle + (b % 8 + 1)) (not bit)))
      else if leb 0x80 b
      then some (advance (drop 1 p) c (code + (b - 0x80 + 1)) bit)
      else if ltb b 0x60
      then (do
        p0 ← get_elem? p 1
        some (advance (drop 2 p) c (code + ((b - 0x40) * 2 ^ 8 + p0 + 1)) bit))
      else (do
        p0 ← get_elem? p 1
        p1 ← get_elem? p 2
        some (advance (drop 3 p) c (code + ((b - 0x60) * 2 ^ 16 + p0 * 2 ^ 8 + p1 + 1)) bit))

-- Every round reads a byte of its own, so that the rounds are at most as many as the bytes.
unfoldable pub in_runs : ℕ → List ℕ → ℕ → ℕ → Bool → Option Bool
in_runs zero p c code bit = none
in_runs (suc fuel) p c code bit = elim (run_step p c code bit) [
  | none ↦ none
  | some (inl answer) ↦ some answer
  | some (inr (p', code', bit')) ↦ in_runs fuel p' c code' bit'
]

unfoldable pub lre_is_in_table : ℕ → List ℕ → List ℕ → ℕ → Option Bool
lre_is_in_table c table index index_len = do
  found ← get_index_pos c index index_len
  elim found [
    | none ↦ some false
    | some (pos, code) ↦ in_runs (suc (length table)) (drop pos table) c code false
  ]

-- `case_conv_table1`, and the table and index of the property `Cased1`
unfoldable pub lre_is_cased : List ℕ → List ℕ → List ℕ → ℕ → Option Bool
lre_is_cased table1 cased cased_index c = elim (find_entry table1 c) [
  | some entry ↦ some true
  | none ↦ lre_is_in_table c cased cased_index (length cased_index / 3)
]

-- The table and index of the property `Case_Ignorable`
unfoldable pub lre_is_case_ignorable : List ℕ → List ℕ → ℕ → Option Bool
lre_is_case_ignorable ignorable ignorable_index c =
    lre_is_in_table c ignorable ignorable_index (length ignorable_index / 3)

-- The table and index of the property `ID_Start`
unfoldable pub lre_is_id_start : List ℕ → List ℕ → ℕ → Option Bool
lre_is_id_start id_start id_start_index c =
    lre_is_in_table c id_start id_start_index (length id_start_index / 3)

-- Those of `ID_Start` and of `ID_Continue1`, which is read only where the first answer is no.
unfoldable pub lre_is_id_continue : List ℕ → List ℕ → List ℕ → List ℕ → ℕ → Option Bool
lre_is_id_continue id_start id_start_index id_continue id_continue_index c = do
  started ← lre_is_id_start id_start id_start_index c
  if started
      then some true
      else lre_is_in_table c id_continue id_continue_index (length id_continue_index / 3)

-- Those of `White_Space`
unfoldable pub lre_is_white_space : List ℕ → List ℕ → ℕ → Option Bool
lre_is_white_space white_space white_space_index c =
    lre_is_in_table c white_space white_space_index (length white_space_index / 3)
