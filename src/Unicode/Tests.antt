-- ===== src/Unicode/Tests.antt =====
-- Runs of the case conversion, the table lookups and the sort of combining marks on small tables.
use substrata_swift.Prelude.{ℕ, zero, suc, ◌≡◌, refl, true, Option, some, List, [], ◌∷◌, ◌*◌, ◌+◌}
use substrata_swift.Unicode.{lre_case_conv, lre_canonicalize, case_conv_by, is_lower_ascii}
use substrata_swift.Unicode.Search.{find_entry, search_loop}
use substrata_swift.Prelude.{◌↔◌, arith, get_elem?}
use substrata_swift.Unicode.Search.Found.{IsOrdered, Covers, find_entry_iff}
use substrata_swift.Unicode.Overlap.Joined.{in_some, Separate}
use substrata_swift.Unicode.Overlap.Whole.{cr_sort_and_remove_overlap_lem}
use substrata_swift.CharRange.{CharRange}
use substrata_swift.Unicode.Table.{lre_is_in_table}
use substrata_swift.Unicode.Combining.{sort_cc}
use substrata_swift.Unicode.Names.{unicode_find_name}
use substrata_swift.Unicode.Overlap.{cr_sort_and_remove_overlap}
use substrata_swift.Unicode.Search.{find_entry}
use substrata_swift.Unicode.Search.{search_loop}
use substrata_swift.Unicode.Search.{entry_code}
use substrata_swift.Unicode.Search.{entry_len}
use substrata_swift.Unicode.{lre_case_folding_entry}
use substrata_swift.Unicode.{lre_case_conv_entry}
use substrata_swift.Unicode.{entry_type}
use substrata_swift.Unicode.{flip_low}
use substrata_swift.Unicode.Names.{find_loop}
use substrata_swift.Str.{memcmp_equal}
use substrata_swift.Unicode.Combining.{sort_loop}
use substrata_swift.Unicode.Combining.{insert_marks}
use substrata_swift.Unicode.Combining.{shift_down}
use substrata_swift.Sort.{rqsort}
use substrata_swift.Unicode.Overlap.{intervals_of}
use substrata_swift.Sort.{rqsort_loop}
use substrata_swift.Sort.{segments}
use substrata_swift.Sort.{insertion_sort}
use substrata_swift.Sort.{insert_down}
use substrata_swift.Sort.{order}
use substrata_swift.Unicode.Overlap.{point_cmp}
use substrata_swift.Sort.{swap}
use substrata_swift.Unicode.Overlap.{points_of}
use substrata_swift.Unicode.Overlap.{remove_overlap}
use substrata_swift.Unicode.Overlap.{join_overlaps}
use substrata_swift.Unicode.Table.{get_index_pos}
use substrata_swift.Unicode.Table.{get_le24}
use substrata_swift.Unicode.Table.{in_runs}
use substrata_swift.Unicode.Table.{run_step}
use substrata_swift.Unicode.Table.{advance}

-- The two first entries: the letters from U+00C0 as `RUN_TYPE_LF`, whose target stands in entry 0, and
-- the pairs from U+0100 as `RUN_TYPE_UL`.
abbrev table1 : List ℕ
table1 = (0x600000 + 23 * 256 + 3 * 16) ∷ (0x800000 + 48 * 256 + 4 * 16) ∷ []

abbrev table2 : List ℕ
table2 = 0 ∷ 0 ∷ []

ascii_upper : lre_case_conv table1 table2 [] 97 0 ≡ some (65 ∷ [])
unfolding lre_case_conv case_conv_by is_lower_ascii
ascii_upper = refl

pair_lower : lre_case_conv table1 table2 [] 0x100 1 ≡ some (0x101 ∷ [])
unfolding lre_case_conv case_conv_by find_entry search_loop entry_code entry_len lre_case_conv_entry
    entry_type flip_low
pair_lower = refl

fold_pair : lre_canonicalize table1 table2 [] 0x100 true ≡ some 0x101
unfolding lre_canonicalize find_entry search_loop entry_code entry_len lre_case_folding_entry
    lre_case_conv_entry entry_type flip_low
fold_pair = refl

-- Runs of 10, 5 and 100 code points, the second in the property.
in_table :
    lre_is_in_table 12 (0x89 ∷ 0x84 ∷ 0xE3 ∷ []) (100 ∷ 0 ∷ 0 ∷ 0xFF ∷ 0xFF ∷ 0 ∷ []) 2 ≡ some true
unfolding lre_is_in_table get_index_pos get_le24 in_runs run_step advance
in_table = refl

finds_name : unicode_find_name (65 ∷ 44 ∷ 66 ∷ 0 ∷ 67 ∷ 0 ∷ 0 ∷ []) (67 ∷ []) ≡ some (some 1)
unfolding unicode_find_name find_loop memcmp_equal
finds_name = refl

abbrev small_cc : ℕ → Option ℕ
small_cc zero = some 0
small_cc (suc n) = some (suc n)

sorts_marks : sort_cc small_cc (0 ∷ 3 ∷ 1 ∷ 0 ∷ 2 ∷ 1 ∷ []) ≡ some (0 ∷ 1 ∷ 3 ∷ 0 ∷ 1 ∷ 2 ∷ [])
unfolding sort_cc sort_loop insert_marks shift_down
sorts_marks = refl

joins :
    cr_sort_and_remove_overlap (record { points = 5 ∷ 9 ∷ 1 ∷ 3 ∷ 3 ∷ 6 ∷ []; size = 6 })
    ≡ some (record { points = 1 ∷ 9 ∷ []; size = 6 })
unfolding cr_sort_and_remove_overlap rqsort intervals_of rqsort_loop segments insertion_sort
    insert_down order point_cmp swap points_of remove_overlap join_overlaps
joins = refl

small_table-IsOrdered : IsOrdered table1
unfolding IsOrdered entry_code entry_len
small_table-IsOrdered zero zero v w l a b = absurd (omega arith)
small_table-IsOrdered zero (suc zero) v w l a b = ground arith
small_table-IsOrdered zero (suc (suc j)) v w l a b = ground arith
small_table-IsOrdered (suc zero) zero v w l a b = absurd (omega arith)
small_table-IsOrdered (suc zero) (suc zero) v w l a b = absurd (omega arith)
small_table-IsOrdered (suc zero) (suc (suc j)) v w l a b = ground arith
small_table-IsOrdered (suc (suc i)) j v w l a b = ground arith

find_entry_iff_example :
    (find_entry table1 0x105 ≡ some (1, 0x803040))
    ↔ ((get_elem? table1 1 ≡ some 0x803040) × Covers 0x803040 0x105)
find_entry_iff_example = find_entry_iff table1 0x105 1 0x803040 small_table-IsOrdered

abbrev shuffled : CharRange
shuffled = record { points = 8 ∷ 9 ∷ 1 ∷ 3 ∷ 3 ∷ 6 ∷ []; size = 6 }

cr_sort_and_remove_overlap_lem_example :
    (is : List (ℕ × ℕ)) × (cr_sort_and_remove_overlap shuffled
      ≡ some (record shuffled { points = points_of is }))
    × Separate is
    × ((x : ℕ) → in_some x is ≡ in_some x (intervals_of shuffled.points))
unfolding intervals_of
cr_sort_and_remove_overlap_lem_example =
    cr_sort_and_remove_overlap_lem shuffled refl (omega arith, (omega arith, (omega arith, tt)))
