-- ===== src/Prelude/Arrays.antt =====
-- C arrays as lists: stores one after the other, at the place where a written prefix ends.
use Prim.Native.Nat.{ℕ, ◌+◌, ◌≤◌, ◌<◌}
use mathlib.Core.Path.{◌≡◌, refl, ap, ◌∙◌}
use mathlib.Core.List.{List, [], ◌∷◌, ◌++◌, append_assoc, append-nil}
use native.Mathlib.Omega.{arith}
use substrata_swift.Prelude.Lists.{length, set, drop, length-append}

-- `a[j] = v1; a[j + 1] = v2; …`
abbrev pub store {ℓ} : {A : Type ℓ} → List A → ℕ → List A → List A
store a j [] = a
store a j (v ∷ vs) = store (set a j v) (j + 1) vs

module _ {ℓ} {A : Type ℓ} where
  pub set-append :
      (done : List A) (x v : A) (rest : List A)
      → set (done ++ (x ∷ rest)) (length done) v ≡ done ++ (v ∷ rest)
  set-append [] x v rest = refl
  set-append (d ∷ done) x v rest = ap (λ t. d ∷ t) (set-append done x v rest)

  -- A store at the end of the written prefix moves that end by one.
  pub set-end :
      (done rest : List A) (j : ℕ) (v : A)
      → j ≡ length done
      → 0 < length rest
      → set (done ++ rest) j v ≡ (done ++ (v ∷ [])) ++ drop 1 rest
  set-end done [] j v e h = absurd (omega arith)
  set-end done (x ∷ rest) j v e h = rw (e, append_assoc) (set-append done x v rest)

  pub store-end :
      (vs done rest : List A) (j : ℕ)
      → j ≡ length done
      → length vs ≤ length rest
      → store (done ++ rest) j vs ≡ (done ++ vs) ++ drop (length vs) rest
  store-end [] done rest j e h = rw append-nil
  store-end (v ∷ vs) done [] j e h = absurd (omega arith)
  store-end (v ∷ vs) done (x ∷ rest) j e h = rw (set-end done (x ∷ rest) j v e (omega arith)) (
      store-end vs (done ++ (v ∷ [])) rest (j + 1) (omega (arith, length-append done (v ∷ [])))
        (omega arith)
      ∙ rw (append_assoc done (v ∷ []) vs))
