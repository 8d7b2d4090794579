-- ===== src/Unicode.antt =====
-- Case conversion in Sources/SubstrataQuickJS/libunicode.c: `lre_case_conv`, `lre_case_conv1`,
-- `lre_case_conv_entry`, `lre_case_folding_entry` and `lre_canonicalize`.
-- The tables of libunicode-table.h are parameters: lists of words, with `none` for a read past the end.
-- The words of `res` that a call stores are the list that it returns, as long as its result says.
pub mod Search
pub mod Table
pub mod Combining
pub mod Names
pub mod Overlap
pub mod Short
mod Tests
use substrata_swift.Prelude.{ℕ, ◌+◌, ◌-◌, ◌*◌, ◌/◌, ◌%◌, ◌^◌, ltb, leb, ◌==◌, if◌then◌else◌}
use substrata_swift.Prelude.{Bool, true, false, not, ◌&&◌, ◌||◌, Option, none, some, ◌>>=◌}
use substrata_swift.Prelude.{List, [], ◌∷◌, get_elem?}
use substrata_swift.Unicode.Search.{find_entry, entry_code}

-- `v >> (32 - 17 - 7 - 4)`, four bits
unfoldable pub entry_type : ℕ → ℕ
entry_type v = v / 2 ^ 4 % 16

unfoldable pub is_upper_ascii : ℕ → Bool
is_upper_ascii c = leb 65 c && leb c 90

unfoldable pub is_lower_ascii : ℕ → Bool
is_lower_ascii c = leb 97 c && leb c 122

-- `a ^ 1`
unfoldable pub flip_low : ℕ → ℕ
flip_low a = if a % 2 == 0 then a + 1 else a - 1

-- `case RUN_TYPE_LSU`
unfoldable pub conv_lsu : ℕ → ℕ → Bool → ℕ
conv_lsu c a is_lower =
    if a == 1
    then (if is_lower then c + 1 else c - 1)
    else if a == (if is_lower then 0 else 2)
    then (if is_lower then c + 2 else c - 2)
    else c

-- `case_conv_table1`, `case_conv_table2` and `case_conv_ext`
module _ (table1 table2 ext : List ℕ) where
  -- The first four run types.
  unfoldable pub conv_run : ℕ → ℕ → ℕ → ℕ → ℕ → Option (List ℕ)
  conv_run c code conv_type type value =
      if (conv_type == type % 2) || (leb 2 type && (conv_type == 2))
      then (do to ← get_elem? table1 value; some ((c - code + to / 2 ^ 15) ∷ []))
      else some (c ∷ [])

  -- The run types from `RUN_TYPE_U2L_399_EXT2` on, which read `case_conv_ext`. `lower` is
  -- `lre_case_conv1(·, 1)`.
  unfoldable pub conv_ext : (ℕ → Option ℕ) → ℕ → ℕ → ℕ → ℕ → ℕ → Option (List ℕ)
  conv_ext lower c code conv_type type value =
      let is_lower = not (conv_type == 0) in
      if type == 6
      then (if is_lower
          then (do low ← get_elem? ext (value % 64); some ((c - code + low) ∷ []))
          else (do high ← get_elem? ext (value / 64); some ((c - code + high) ∷ 0x399 ∷ [])))
      else if type == 7
      then (if conv_type == 1
          then some (c ∷ [])
          else some ((value + (if conv_type == 2 then 0x20 else 0)) ∷ []))
      else if type == 8
      then (if conv_type == 1
          then some (c ∷ [])
          else (do e ← get_elem? ext value; some ((e + (if conv_type == 2 then 1 else 0)) ∷ [])))
      else if leb type 10
      then (if (if is_lower then 1 else 0) == type - 9
          then (do e ← get_elem? ext value; some (e ∷ []))
          else some (c ∷ []))
      else if type == 12
      then (if is_lower
          then (do
            high ← get_elem? ext (value / 64)
            low ← get_elem? ext (value % 64)
            some ((c - code + high) ∷ low ∷ []))
          else some (c ∷ []))
      else if conv_type == 1
      then some (c ∷ [])
      else if type == 11
      then (do
        high ← get_elem? ext (value / 64)
        low ← get_elem? ext (value % 64)
        if conv_type == 2
            then (do r0 ← lower (c - code + high); r1 ← lower low; some (r0 ∷ r1 ∷ []))
            else some ((c - code + high) ∷ low ∷ []))
      else (do
        e0 ← get_elem? ext (value / 256)
        e1 ← get_elem? ext (value / 16 % 16)
        e2 ← get_elem? ext (value % 16)
        if conv_type == 2
            then (do r0 ← lower e0; r1 ← lower e1; r2 ← lower e2; some (r0 ∷ r1 ∷ r2 ∷ []))
            else some (e0 ∷ e1 ∷ e2 ∷ []))

  unfoldable pub lre_case_conv_entry : (ℕ → Option ℕ) → ℕ → ℕ → ℕ → ℕ → Option (List ℕ)
  lre_case_conv_entry lower c conv_type idx v = do
    low ← get_elem? table2 idx
    let is_lower = not (conv_type == 0)
    let type = entry_type v
    let value = v % 16 * 256 + low
    let code = entry_code v
    let a = c - code
    if leb type 3
        then conv_run c code conv_type type value
        else if type == 4
        then some ((if a % 2 == (if is_lower then 0 else 1) then flip_low a + code else c) ∷ [])
        else if type == 5
        then some (conv_lsu c a is_lower ∷ [])
        else conv_ext lower c code conv_type type value

  unfoldable pub case_conv_by : (ℕ → Option ℕ) → ℕ → ℕ → Option (List ℕ)
  case_conv_by lower c conv_type =
      if ltb c 128
      then some (
          (if conv_type == 0
            then (if is_lower_ascii c then c - 97 + 65 else c)
            else if is_upper_ascii c
            then c - 65 + 97
            else c)
          ∷ [])
      else elim (find_entry table1 c) [
        | none ↦ some (c ∷ [])
        | some (idx, v) ↦ lre_case_conv_entry lower c conv_type idx v
      ]

  -- `lre_case_conv1(c, 1)`. A conversion to lower case calls `lre_case_conv1` no further.
  unfoldable pub lre_case_conv1 : ℕ → Option ℕ
  lre_case_conv1 c = do res ← case_conv_by (λ c'. none) c 1; get_elem? res 0

  unfoldable pub lre_case_conv : ℕ → ℕ → Option (List ℕ)
  lre_case_conv c conv_type = case_conv_by lre_case_conv1 c conv_type

  -- The three folds to several characters that have a single character with the same fold.
  unfoldable pub special_fold : ℕ → ℕ
  special_fold c =
      if c == 0xFB06
      then 0xFB05
      else if c == 0x1FD3
      then 0x390
      else if c == 0x1FE3
      then 0x3B0
      else c

  unfoldable pub lre_case_folding_entry : ℕ → ℕ → ℕ → Bool → Option ℕ
  lre_case_folding_entry c idx v is_unicode =
      if is_unicode
      then (do
        res ← lre_case_conv_entry lre_case_conv1 c 2 idx v
        some (elim res [ r ∷ [] ↦ r | _ ↦ special_fold c ]))
      else if ltb c 128
      then some (if is_lower_ascii c then c - 97 + 65 else c)
      else (do
        res ← lre_case_conv_entry lre_case_conv1 c 0 idx v
        some (elim res [ r ∷ [] ↦ (if leb 128 r then r else c) | _ ↦ c ]))

  unfoldable pub lre_canonicalize : ℕ → Bool → Option ℕ
  lre_canonicalize c is_unicode =
      if ltb c 128
      then some (
          if is_unicode
          then (if is_upper_ascii c then c - 65 + 97 else c)
          else if is_lower_ascii c
          then c - 97 + 65
          else c)
      else elim (find_entry table1 c) [
        | none ↦ some c
        | some (idx, v) ↦ lre_case_folding_entry c idx v is_unicode
      ]
