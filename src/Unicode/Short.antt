-- ===== src/Unicode/Short.antt =====
-- The short forms of decomposition tables in Sources/SubstrataQuickJS/libunicode.c:
-- `unicode_get_short_code`, `unicode_get_lower_simple` and `unicode_get16`.
use substrata_swift.Prelude.{ℕ, ◌+◌, ◌-◌, ◌*◌, ◌^◌, ltb, leb, if◌then◌else◌, ◌&&◌, ◌||◌}
use substrata_swift.Prelude.{Option, some, ◌>>=◌, List, [], ◌∷◌, get_elem?}

-- `unicode_short_table`
abbrev short_table : List ℕ
short_table = 0x2044 ∷ 0x2215 ∷ []

unfoldable pub unicode_get_short_code : ℕ → Option ℕ
unicode_get_short_code c =
    if ltb c 0x80
    then some c
    else if ltb c (0x80 + 0x50)
    then some (c - 0x80 + 0x300)
    else get_elem? short_table (c - 0x80 - 0x50)

unfoldable pub unicode_get_lower_simple : ℕ → ℕ
unicode_get_lower_simple c = if ltb c 0x100 || (leb 0x410 c && leb c 0x42F) then c + 0x20 else c + 1

-- The two bytes are disjoint bits of the result.
unfoldable pub unicode_get16 : List ℕ → ℕ → Option ℕ
unicode_get16 p at = do low ← get_elem? p at; high ← get_elem? p (at + 1); some (low + high * 2 ^ 8)
