-- ===== src/Prelude/Tables.antt =====
-- Swift dictionaries with integer keys, as association lists.
use Prim.Native.Nat.{ℕ, ◌<◌}
use mathlib.Core.Path.{◌≡◌, refl}
use mathlib.Core.List.{List, [], ◌∷◌}
use mathlib.Core.Option.{Option, none, some}
use native.Mathlib.Omega.{arith}
use substrata_swift.Prelude.Tests.{◌==◌, ==_iff, if◌then◌else◌}

abbrev pub Table {ℓ} : Type ℓ → Type ℓ
Table V = List (ℕ × V)

module _ {ℓ} {V : Type ℓ} where
  -- `table[key]`
  abbrev pub find : Table V → ℕ → Option V
  find [] k = none
  find ((j, v) ∷ t) k = if j == k then some v else find t k

  -- `table[key] = value`
  abbrev pub put : Table V → ℕ → V → Table V
  put [] k v = (k, v) ∷ []
  put ((j, w) ∷ t) k v = if j == k then (k, v) ∷ t else (j, w) ∷ put t k v

  -- Every key is below a bound.
  abbrev pub Below : ℕ → Table V → Type 0
  Below n [] = Unit
  Below n ((j, v) ∷ t) = (j < n) × Below n t

module _ {ℓ} {V : Type ℓ} where
  pub find-put :
      (t : Table V) (k j : ℕ) (v : V) → find (put t k v) j ≡ (if k == j then some v else find t j)
  find-put [] k j v = refl
  find-put ((i, w) ∷ t) k j v = ground (arith, ==_iff k j, ==_iff i k, ==_iff i j, find-put t k j v)

  pub find-Below : (t : Table V) (n k : ℕ) → Below n t → n ≡ k → find t k ≡ none
  find-Below [] n k b e = refl
  find-Below ((j, v) ∷ t) n k b e = ground (arith, find-Below t n k)

  pub Below-suc : (t : Table V) (n m : ℕ) → n < m → Below n t → Below m t
  Below-suc [] n m l b = tt
  Below-suc ((j, v) ∷ t) n m l b = (omega arith, Below-suc t n m l b.1)

  pub put-Below : (t : Table V) (n k : ℕ) (v : V) → k < n → Below n t → Below n (put t k v)
  put-Below [] n k v l b = (l, tt)
  put-Below ((j, w) ∷ t) n k v l b = ground (arith, put-Below t n k v)

-- A store of objects by their addresses, with one of them replaced.
abbrev pub set_at {ℓ} : {A : Type ℓ} → (ℕ → A) → ℕ → A → ℕ → A
set_at s i a j = if i == j then a else s j
