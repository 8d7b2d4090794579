-- ===== src/Str.antt =====
-- The string helpers of Sources/SubstrataQuickJS/cutils.c: `js__pstrcpy`, `js__pstrcat`,
-- `js__strstart` and `js__has_suffix`.
-- A C string is the list of its bytes before the terminator, so that reading at its end gives 0; a
-- destination is the list of all its bytes. `buf_size` is an `int`, where a negative one is 0 here:
-- both make the test `buf_size <= 0` true.
pub mod Parts
mod Tests
use substrata_swift.Prelude.{
  ℕ, zero, suc, ◌+◌, ◌-◌, ltb, leb, ◌==◌, if◌then◌else◌, Bool, true, false, ◌&&◌,
}
use substrata_swift.Prelude.{Option, none, some, List, [], ◌∷◌, ◌++◌, length, take, drop, store}

-- The bytes before the first zero, as `strlen` delimits them.
unfoldable pub string_of : List ℕ → List ℕ
string_of [] = []
string_of (c ∷ cs) = let rest = string_of cs in if c == 0 then [] else c ∷ rest

-- The loop of `js__pstrcpy`: the bytes that are copied, with `room` places left before the last one.
unfoldable pub copied : ℕ → List ℕ → List ℕ
copied zero str = []
copied (suc room) [] = []
copied (suc room) (c ∷ str) = let rest = copied room str in if c == 0 then [] else c ∷ rest

-- `q >= buf + buf_size - 1` ends the loop before the last byte, which takes the terminator. The
-- destination stands at `at`.
unfoldable pub js__pstrcpy : List ℕ → ℕ → ℕ → List ℕ → List ℕ
js__pstrcpy buf at buf_size str =
    if buf_size == 0 then buf else store buf at (copied (buf_size - 1) str ++ (0 ∷ []))

unfoldable pub js__pstrcat : List ℕ → ℕ → List ℕ → List ℕ
js__pstrcat buf buf_size s =
    let len = length (string_of buf) in
    if ltb len buf_size then js__pstrcpy buf len (buf_size - len) s else buf

-- The rest of `str` that `*ptr` points to, or `none` for 0. At the end of `str` the byte read is the
-- terminator, which differs from every byte of `val`.
unfoldable pub js__strstart : List ℕ → List ℕ → Option (List ℕ)
js__strstart str [] = some str
js__strstart [] (v ∷ val) = none
js__strstart (c ∷ str) (v ∷ val) = let rest = js__strstart str val in if c == v then rest else none

-- `!memcmp(a, b, n)` on `n` bytes each
unfoldable pub memcmp_equal : List ℕ → List ℕ → Bool
memcmp_equal [] [] = true
memcmp_equal (x ∷ xs) (y ∷ ys) = (x == y) && memcmp_equal xs ys
memcmp_equal _ _ = false

unfoldable pub js__has_suffix : List ℕ → List ℕ → Bool
js__has_suffix str suffix =
    let len = length str in
    let slen = length suffix in leb slen len && memcmp_equal (drop (len - slen) str) suffix
