-- ===== src/Unicode/Search/Found.antt =====
-- The binary search of libunicode.c finds the entry of a code point in an ordered table.
use substrata_swift.Prelude.{ℕ, zero, suc, ◌+◌, ◌-◌, ◌/◌, ◌≤◌, ◌<◌, ◌≡◌, refl, ap, arith}
use substrata_swift.Prelude.{some, ◌↔◌}
use substrata_swift.Prelude.{List, [], ◌∷◌, length, get_elem?}
use substrata_swift.Unicode.Search.{entry_code, entry_len, search_loop, find_entry}

-- The code points of the entry `v`.
unfoldable pub Covers : ℕ → ℕ → Type 0
Covers v c = (entry_code v ≤ c) × (c < entry_code v + entry_len v)

-- Each entry ends before the next begins.
unfoldable pub IsOrdered : List ℕ → Type 0
IsOrdered table =
    (i j v w : ℕ)
    → i < j
    → get_elem? table i ≡ some v
    → get_elem? table j ≡ some w
    → entry_code v + entry_len v ≤ entry_code w

get-inside : (table : List ℕ) (i : ℕ) → i < length table → (v : ℕ) × (get_elem? table i ≡ some v)
get-inside [] i h = absurd (omega arith)
get-inside (v ∷ table) zero h = (v, refl)
get-inside (v ∷ table) (suc i) h = get-inside table i (omega arith)

get-below : (table : List ℕ) (i v : ℕ) → get_elem? table i ≡ some v → i < length table
get-below [] i v h = ground arith
get-below (w ∷ table) zero v h = omega arith
get-below (w ∷ table) (suc i) v h = omega (arith, get-below table i v h)

search_loop_sound :
    (fuel : ℕ) (table : List ℕ) (c lo hi i v : ℕ)
    → search_loop fuel table c lo hi ≡ some (i, v)
    → (get_elem? table i ≡ some v) × Covers v c
unfolding search_loop Covers
search_loop_sound zero table c lo hi i v h = ground arith
search_loop_sound (suc fuel) table c lo hi i v h = ground (
  arith,
  search_loop_sound fuel table c lo ((hi - 1 + lo) / 2) i v,
  search_loop_sound fuel table c ((hi - 1 + lo) / 2 + 1) hi i v,
)

-- Where the entry at `k` covers `c`, an entry that ends before `c` stands before it.
search_loop_complete :
    (fuel : ℕ) (table : List ℕ) (c lo hi k v : ℕ)
    → IsOrdered table
    → get_elem? table k ≡ some v
    → Covers v c
    → lo ≤ k
    → k < hi
    → hi ≤ length table
    → hi - lo < fuel
    → search_loop fuel table c lo hi ≡ some (k, v)
unfolding search_loop Covers IsOrdered
search_loop_complete zero table c lo hi k v o e h l r b f = absurd (omega arith)
search_loop_complete (suc fuel) table c lo hi k v o e h l r b f =
    let idx = (hi - 1 + lo) / 2 in
    let (w, here) = get-inside table idx (omega arith) in
    let left = search_loop_complete fuel table c lo idx k v o e h l in
    let right = search_loop_complete fuel table c (idx + 1) hi k v o e h in
    let before = o idx k w v in
    let after = o k idx v w in
    let same = λ (q : idx ≡ k). ap (λ i. get_elem? table i) q in ground arith

-- In a table whose entries ascend without overlap, `find_entry` returns an entry exactly when it is the
-- one whose code points include `c`, with its index.
pub find_entry_iff :
    (table : List ℕ) (c k v : ℕ)
    → IsOrdered table
    → (find_entry table c ≡ some (k, v)) ↔ ((get_elem? table k ≡ some v) × Covers v c)
unfolding find_entry
find_entry_iff table c k v o = (
  search_loop_sound (suc (length table)) table c 0 (length table) k v,
  λ h.
      search_loop_complete (suc (length table)) table c 0 (length table) k v o h.0 h.1 (omega arith)
        (get-below table k v h.0) (omega arith) (omega arith),
)
