-- ===== src/Unicode/Names.antt =====
-- The lookup of a property name in Sources/SubstrataQuickJS/libunicode.c: `unicode_find_name`.
-- The name table is the list of its bytes: entries end with a zero byte and hold names separated by
-- commas, and an empty entry ends the table.
use substrata_swift.Prelude.{ℕ, zero, suc, ◌+◌, ◌==◌, if◌then◌else◌, Bool, true, false}
use substrata_swift.Prelude.{Option, none, some, List, [], ◌∷◌, length}
use substrata_swift.Str.{memcmp_equal}

-- A name of the entry at `p`, whether a comma ends it, and the bytes behind it, or `none` when no byte
-- ends it.
unfoldable pub next_name : List ℕ → Option (List ℕ × Bool × List ℕ)
next_name [] = none
next_name (b ∷ p) =
    let rest = next_name p in
    if b == 44
    then some ([], true, p)
    else if b == 0
    then some ([], false, p)
    else elim rest [ none ↦ none | some (name, comma, p') ↦ some (b ∷ name, comma, p') ]

-- The two loops. `pos` counts the entries before, and `fresh` tells that an entry begins at `p`. The
-- inner `option` is `none` for -1, the outer for a read past the end.
unfoldable pub find_loop : ℕ → List ℕ → List ℕ → ℕ → Bool → Option (Option ℕ)
find_loop zero p name pos fresh = none
find_loop (suc fuel) p name pos fresh = elim (next_name p) [
  | none ↦ none
  | some ([], false, p') ↦
      (let rest = find_loop fuel p' name (pos + 1) true in
        if fresh then some none else if memcmp_equal [] name then some (some pos) else rest)
  | some (found, comma, p') ↦
      (let rest =
          find_loop fuel p' name (if comma then pos else pos + 1) (if comma then false else true) in
        if memcmp_equal found name then some (some pos) else rest)
]

-- Every round passes a separator.
unfoldable pub unicode_find_name : List ℕ → List ℕ → Option (Option ℕ)
unfolding next_name
unicode_find_name name_table name = find_loop (suc (length name_table)) name_table name 0 true
