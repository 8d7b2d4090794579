-- ===== src/CharRange/Op.antt =====
-- `cr_op`, `cr_union1` and `cr_invert` of libunicode.c against the set operations.
use substrata_swift.Prelude.{ℕ, ◌≤◌, ◌≡◌, refl, ◌∙◌, arith}
use substrata_swift.Prelude.{ltb, ◌==◌, Bool, true, false, Bool-cases, inl, inr, not, xor}
use substrata_swift.Prelude.{List, [], ◌∷◌, ◌++◌, length}
use substrata_swift.CharRange.{odd, CharRangeOp, is_in}
use substrata_swift.CharRange.Member.{Ascending, odd-suc}
use substrata_swift.CharRange.Toggles.{change, toggles}
use substrata_swift.CharRange.Toggles.{xor_back, xor_same, xor-false, xor-not}

pub raise-Ascending : (lo hi : ℕ) (ps : List ℕ) → lo ≤ hi → Ascending hi ps → Ascending lo ps
raise-Ascending lo hi [] h a = tt
raise-Ascending lo hi (p ∷ ps) h a = (omega arith, a.1)

change-Ascending :
    (new old : Bool) (lo v : ℕ) (rest : List ℕ)
    → lo ≤ v
    → Ascending v rest
    → Ascending lo (change new old v ++ rest)
change-Ascending true true lo v rest h a = raise-Ascending lo v rest h a
change-Ascending true false lo v rest h a = (h, a)
change-Ascending false true lo v rest h a = (h, a)
change-Ascending false false lo v rest h a = raise-Ascending lo v rest h a

-- The added points are in ascending order.
pub toggles-Ascending :
    (op : CharRangeOp) (a b : List ℕ) (pa pb : Bool) (lo : ℕ)
    → Ascending lo a
    → Ascending lo b
    → Ascending lo (toggles op a b pa pb)
unfolding toggles
toggles-Ascending op [] [] pa pb lo ha hb = tt
toggles-Ascending op (v ∷ a) [] pa pb lo ha hb =
    change-Ascending (is_in op (not pa) pb) (is_in op pa pb) lo v (toggles op a [] (not pa) pb) ha.0
      (toggles-Ascending op a [] (not pa) pb v ha.1 tt)
toggles-Ascending op [] (w ∷ b) pa pb lo ha hb =
    change-Ascending (is_in op pa (not pb)) (is_in op pa pb) lo w (toggles op [] b pa (not pb)) hb.0
      (toggles-Ascending op [] b pa (not pb) w tt hb.1)
toggles-Ascending op (v ∷ a) (w ∷ b) pa pb lo ha hb = elim (Bool-cases (ltb v w)) [
  | inl first ↦ rw first (
      change-Ascending (is_in op (not pa) pb) (is_in op pa pb) lo v
        (toggles op a (w ∷ b) (not pa) pb) ha.0
        (toggles-Ascending op a (w ∷ b) (not pa) pb v ha.1 (ground arith, hb.1)))
  | inr later ↦ rw later (elim (Bool-cases (v == w)) [
    | inl same ↦ rw same (
        change-Ascending (is_in op (not pa) (not pb)) (is_in op pa pb) lo v
          (toggles op a b (not pa) (not pb)) ha.0
          (toggles-Ascending op a b (not pa) (not pb) v ha.1
            (raise-Ascending v w b (ground arith) hb.1)))
    | inr second ↦ rw second (
        change-Ascending (is_in op pa (not pb)) (is_in op pa pb) lo w
          (toggles op (v ∷ a) b pa (not pb)) hb.0
          (toggles-Ascending op (v ∷ a) b pa (not pb) w (ground arith, ha.1) hb.1))
  ])
]

odd-change :
    (new old : Bool) (v : ℕ) (rest : List ℕ)
    → odd (length (change new old v ++ rest)) ≡ xor (xor new old) (odd (length rest))
odd-change true true v rest = refl
odd-change true false v rest = odd-suc (length rest)
odd-change false true v rest = odd-suc (length rest)
odd-change false false v rest = refl

-- The number of points added has the parity of the change of status over all of `a` and `b`.
pub odd-toggles :
    (op : CharRangeOp) (a b : List ℕ) (pa pb : Bool)
    → odd (length (toggles op a b pa pb))
      ≡ xor (is_in op pa pb) (is_in op (xor pa (odd (length a))) (xor pb (odd (length b))))
unfolding toggles
odd-toggles op [] [] pa pb = unfold odd in simp (xor-false, xor_same)
odd-toggles op (v ∷ a) [] pa pb =
    odd-change (is_in op (not pa) pb) (is_in op pa pb) v (toggles op a [] (not pa) pb)
    ∙ rw (odd-toggles op a [] (not pa) pb, odd-suc (length a), xor-not pa (odd (length a)))
        (xor_back (is_in op (not pa) pb) (is_in op pa pb) _)
odd-toggles op [] (w ∷ b) pa pb =
    odd-change (is_in op pa (not pb)) (is_in op pa pb) w (toggles op [] b pa (not pb))
    ∙ rw (odd-toggles op [] b pa (not pb), odd-suc (length b), xor-not pb (odd (length b)))
        (xor_back (is_in op pa (not pb)) (is_in op pa pb) _)
odd-toggles op (v ∷ a) (w ∷ b) pa pb = elim (Bool-cases (ltb v w)) [
  | inl first ↦ rw first (
      odd-change (is_in op (not pa) pb) (is_in op pa pb) v (toggles op a (w ∷ b) (not pa) pb)
      ∙ rw (odd-toggles op a (w ∷ b) (not pa) pb, odd-suc (length a), xor-not pa (odd (length a)))
          (xor_back (is_in op (not pa) pb) (is_in op pa pb) _))
  | inr later ↦ rw later (elim (Bool-cases (v == w)) [
    | inl same ↦ rw same (
        odd-change (is_in op (not pa) (not pb)) (is_in op pa pb) v
          (toggles op a b (not pa) (not pb))
        ∙ rw
            (
              odd-toggles op a b (not pa) (not pb),
              odd-suc (length a),
              odd-suc (length b),
              xor-not pa (odd (length a)),
              xor-not pb (odd (length b)),
            )
            (xor_back (is_in op (not pa) (not pb)) (is_in op pa pb) _))
    | inr second ↦ rw second (
        odd-change (is_in op pa (not pb)) (is_in op pa pb) w (toggles op (v ∷ a) b pa (not pb))
        ∙ rw (odd-toggles op (v ∷ a) b pa (not pb), odd-suc (length b), xor-not pb (odd (length b)))
            (xor_back (is_in op pa (not pb)) (is_in op pa pb) _))
  ])
]
