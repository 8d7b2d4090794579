-- ===== src/Str/Tests.antt =====
-- Runs of the string helpers.
use substrata_swift.Prelude.{◌≡◌, refl, true, some, [], ◌∷◌}
use substrata_swift.Prelude.{ℕ, List}
use substrata_swift.Str.{
  copied, string_of, memcmp_equal, js__pstrcpy, js__pstrcat, js__strstart, js__has_suffix,
}

copies_and_truncates : js__pstrcpy (9 ∷ 9 ∷ 9 ∷ 9 ∷ []) 0 3 (1 ∷ 2 ∷ 3 ∷ []) ≡ 1 ∷ 2 ∷ 0 ∷ 9 ∷ []
unfolding js__pstrcpy copied
copies_and_truncates = refl

appends : js__pstrcat (7 ∷ 0 ∷ 9 ∷ 9 ∷ []) 4 (1 ∷ 2 ∷ 3 ∷ []) ≡ 7 ∷ 1 ∷ 2 ∷ 0 ∷ []
unfolding js__pstrcat js__pstrcpy copied string_of
appends = refl

starts : js__strstart (1 ∷ 2 ∷ 3 ∷ []) (1 ∷ 2 ∷ []) ≡ some (3 ∷ [])
unfolding js__strstart
starts = refl

ends : js__has_suffix (1 ∷ 2 ∷ 3 ∷ []) (2 ∷ 3 ∷ []) ≡ true
unfolding js__has_suffix memcmp_equal
ends = refl

abbrev text : List ℕ
text = 1 ∷ 2 ∷ 3 ∷ []
