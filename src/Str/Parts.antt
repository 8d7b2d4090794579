-- ===== src/Str/Parts.antt =====
-- `js__strstart` and `js__has_suffix` of cutils.c recognize prefixes and suffixes.
use substrata_swift.Prelude.{ℕ, zero, suc, ◌-◌, ◌≡◌, refl, sym, ap, ◌∙◌, arith, ◌↔◌}
use substrata_swift.Prelude.{true, some}
use substrata_swift.Prelude.{
  List, [], ◌∷◌, ◌++◌, length, length-append, take, drop, drop-append_self,
}
use substrata_swift.Str.{js__strstart, memcmp_equal, js__has_suffix}

strstart_sound : (str val rest : List ℕ) → js__strstart str val ≡ some rest → str ≡ val ++ rest
unfolding js__strstart
strstart_sound str [] rest h = ground arith
strstart_sound [] (v ∷ val) rest h = ground arith
strstart_sound (c ∷ str) (v ∷ val) rest h = ground (arith, strstart_sound str val rest)

strstart_complete : (val rest : List ℕ) → js__strstart (val ++ rest) val ≡ some rest
unfolding js__strstart
strstart_complete [] rest = refl
strstart_complete (v ∷ val) rest = ground (arith, strstart_complete val rest)

-- `js__strstart(str, val, &ptr)` returns 1 exactly when `str` begins with `val`, and `ptr` then is the
-- rest.
pub js__strstart_iff :
    (str val rest : List ℕ) → (js__strstart str val ≡ some rest) ↔ (str ≡ val ++ rest)
js__strstart_iff str val rest =
    (strstart_sound str val rest, λ e. ap (λ t. js__strstart t val) e ∙ strstart_complete val rest)

pub memcmp_equal_iff : (xs ys : List ℕ) → (memcmp_equal xs ys ≡ true) ↔ (xs ≡ ys)
unfolding memcmp_equal
memcmp_equal_iff [] [] = ground arith
memcmp_equal_iff [] (y ∷ ys) = ground arith
memcmp_equal_iff (x ∷ xs) [] = ground arith
memcmp_equal_iff (x ∷ xs) (y ∷ ys) = ground (arith, memcmp_equal_iff xs ys)

take-drop : (n : ℕ) (xs : List ℕ) → take n xs ++ drop n xs ≡ xs
take-drop zero xs = refl
take-drop (suc n) [] = refl
take-drop (suc n) (x ∷ xs) = ap (λ t. x ∷ t) (take-drop n xs)

has_suffix_sound :
    (str suffix : List ℕ)
    → js__has_suffix str suffix ≡ true
    → take (length str - length suffix) str ++ suffix ≡ str
unfolding js__has_suffix
has_suffix_sound str suffix h = ground (
  arith,
  memcmp_equal_iff (drop (length str - length suffix) str) suffix,
  take-drop (length str - length suffix) str,
)

has_suffix_complete : (front suffix : List ℕ) → js__has_suffix (front ++ suffix) suffix ≡ true
unfolding js__has_suffix
has_suffix_complete front suffix =
    let len = length-append front suffix in
    let start : length (front ++ suffix) - length suffix ≡ length front = omega arith in
    let cut = ap (λ n. drop n (front ++ suffix)) start ∙ drop-append_self front suffix in
    ground (
      arith,
      memcmp_equal_iff (drop (length (front ++ suffix) - length suffix) (front ++ suffix)) suffix,
    )

-- `js__has_suffix(str, suffix)` returns 1 exactly when some bytes before `suffix` make up `str`.
pub js__has_suffix_iff :
    (str suffix : List ℕ)
    → (js__has_suffix str suffix ≡ true) ↔ ((front : List ℕ) × (front ++ suffix ≡ str))
js__has_suffix_iff str suffix = (
  λ h. (take (length str - length suffix) str, has_suffix_sound str suffix h),
  λ (front, e). ap (λ t. js__has_suffix t suffix) (sym e) ∙ has_suffix_complete front suffix,
)
