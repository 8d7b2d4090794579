-- ===== src/Unicode/Search.antt =====
-- The binary search over `case_conv_table1` that `lre_case_conv`, `lre_canonicalize` and `lre_is_cased`
-- of Sources/SubstrataQuickJS/libunicode.c share.
pub mod Found
use substrata_swift.Prelude.{ℕ, zero, suc, ◌+◌, ◌-◌, ◌/◌, ◌%◌, ◌^◌, ltb, leb, true, false}
use substrata_swift.Prelude.{Option, none, some, List, length, get_elem?}

-- `v >> (32 - 17)`: the first code point of an entry.
unfoldable pub entry_code : ℕ → ℕ
entry_code v = v / 2 ^ 15

-- `(v >> (32 - 17 - 7)) & 0x7f`: the number of its code points.
unfoldable pub entry_len : ℕ → ℕ
entry_len v = v / 2 ^ 8 % 128

-- `while (idx_min <= idx_max)`, with `idx_max` one more, since it may fall to -1.
unfoldable pub search_loop : ℕ → List ℕ → ℕ → ℕ → ℕ → Option (ℕ × ℕ)
search_loop zero table c lo hi = none
search_loop (suc fuel) table c lo hi =
    let idx = (hi - 1 + lo) / 2 in
    elim (ltb lo hi) [
      | false ↦ none
      | true ↦ elim (get_elem? table idx) [
        | none ↦ none
        | some v ↦ elim (ltb c (entry_code v)) [
          | true ↦ search_loop fuel table c lo idx
          | false ↦ elim (leb (entry_code v + entry_len v) c) [
            | true ↦ search_loop fuel table c (idx + 1) hi
            | false ↦ some (idx, v)
          ]
        ]
      ]
    ]

unfoldable pub find_entry : List ℕ → ℕ → Option (ℕ × ℕ)
find_entry table c = search_loop (suc (length table)) table c 0 (length table)
