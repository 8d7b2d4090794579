-- ===== src/CharRange/Toggles.antt =====
-- The points that the loop of `cr_op` of libunicode.c adds, without the bookkeeping.
use substrata_swift.Prelude.{ℕ, ◌≡◌, refl, arith, ltb, leb, ◌==◌, ==_iff, if◌then◌else◌}
use substrata_swift.Prelude.{
  Bool, true, false, Bool-cases, inl, inr, not, xor, ◌&&◌, List, [], ◌∷◌, ◌++◌,
}
use substrata_swift.CharRange.{CharRangeOp, is_in}
use substrata_swift.CharRange.Member.{inside, Ascending, inside_below}

-- `v`, where the status changes.
abbrev pub change : Bool → Bool → ℕ → List ℕ
change new old v = if xor new old then v ∷ [] else []

-- `pa` and `pb` are the low bits of the two indices.
unfoldable pub toggles : CharRangeOp → List ℕ → List ℕ → Bool → Bool → List ℕ
toggles op [] [] pa pb = []
toggles op (v ∷ a) [] pa pb =
    change (is_in op (not pa) pb) (is_in op pa pb) v ++ toggles op a [] (not pa) pb
toggles op [] (w ∷ b) pa pb =
    change (is_in op pa (not pb)) (is_in op pa pb) w ++ toggles op [] b pa (not pb)
toggles op (v ∷ a) (w ∷ b) pa pb =
    let first =
      change (is_in op (not pa) pb) (is_in op pa pb) v ++ toggles op a (w ∷ b) (not pa) pb in
    let both =
      change (is_in op (not pa) (not pb)) (is_in op pa pb) v ++ toggles op a b (not pa) (not pb) in
    let second =
      change (is_in op pa (not pb)) (is_in op pa pb) w ++ toggles op (v ∷ a) b pa (not pb) in
    if ltb v w then first else if v == w then both else second

inside-change :
    (x v : ℕ) (new old : Bool) (rest : List ℕ)
    → inside x (change new old v ++ rest) ≡ xor (leb v x && xor new old) (inside x rest)
unfolding inside
inside-change x v true true rest = ground arith
inside-change x v true false rest = ground arith
inside-change x v false true rest = ground arith
inside-change x v false false rest = ground arith

pub xor_back : (s t u : Bool) → xor (xor s t) (xor s u) ≡ xor t u
xor_back true true u = ground arith
xor_back true false u = ground arith
xor_back false t u = ground arith

pub xor_same : (s : Bool) → xor s s ≡ false
xor_same true = refl
xor_same false = refl

pub xor-false : (s : Bool) → xor s false ≡ s
xor-false true = refl
xor-false false = refl

pub xor-not : (s t : Bool) → xor s (not t) ≡ xor (not s) t
xor-not true true = refl
xor-not true false = refl
xor-not false t = refl

-- One round at the point `v`. `pa` and `pb` are the low bits before it, and `ia` and `ib` what the
-- points from there on do to `x`; with a prime, the same after it.
module _ (op : CharRangeOp) (x v : ℕ) (pa pb pa' pb' ia ib ia' ib' : Bool) (rest : List ℕ) where
  abbrev After : Type 0
  After = inside x rest ≡ xor (is_in op pa' pb') (is_in op (xor pa' ia') (xor pb' ib'))

  abbrev Before : Type 0
  Before =
      inside x (change (is_in op pa' pb') (is_in op pa pb) v ++ rest)
      ≡ xor (is_in op pa pb) (is_in op (xor pa ia) (xor pb ib))

  reached : leb v x ≡ true → After → xor pa ia ≡ xor pa' ia' → xor pb ib ≡ xor pb' ib' → Before
  reached above h ea eb =
      rw (inside-change x v (is_in op pa' pb') (is_in op pa pb) rest, above, h, ea, eb)
        (xor_back (is_in op pa' pb') (is_in op pa pb) (is_in op (xor pa' ia') (xor pb' ib')))

  not_reached :
      leb v x ≡ false → After → ia ≡ false → ib ≡ false → ia' ≡ false → ib' ≡ false → Before
  not_reached below h ea eb ea' eb' =
      rw (inside-change x v (is_in op pa' pb') (is_in op pa pb) rest, below, h, ea, eb, ea', eb')
        (simp (xor-false, xor_same))

toggled :
    (x v : ℕ) (ps : List ℕ) (p : Bool)
    → leb v x ≡ true
    → xor p (inside x (v ∷ ps)) ≡ xor (not p) (inside x ps)
unfolding inside
toggled x v ps p h = rw h (xor-not p (inside x ps))

-- The same round with the points themselves.
round :
    (op : CharRangeOp) (x v : ℕ) (pa pb pa' pb' : Bool) (a b a' b' rest : List ℕ)
    → Ascending v a
    → Ascending v b
    → Ascending v a'
    → Ascending v b'
    → (leb v x ≡ true → xor pa (inside x a) ≡ xor pa' (inside x a'))
    → (leb v x ≡ true → xor pb (inside x b) ≡ xor pb' (inside x b'))
    → After op x v pa pb pa' pb' (inside x a) (inside x b) (inside x a') (inside x b') rest
    → Before op x v pa pb pa' pb' (inside x a) (inside x b) (inside x a') (inside x b') rest
round op x v pa pb pa' pb' a b a' b' rest ha hb ha' hb' ea eb h = elim (Bool-cases (leb v x)) [
  | inl above ↦
      reached op x v pa pb pa' pb' (inside x a) (inside x b) (inside x a') (inside x b') rest above
        h (ea above) (eb above)
  | inr below ↦
      not_reached op x v pa pb pa' pb' (inside x a) (inside x b) (inside x a') (inside x b') rest
        below h (inside_below x v a ha (ground arith)) (inside_below x v b hb (ground arith))
        (inside_below x v a' ha' (ground arith)) (inside_below x v b' hb' (ground arith))
]

-- At any `x` the added points bring the status from that of the indices to that of the set
-- operation on what `a` and `b` still do to `x`.
pub inside-toggles :
    (op : CharRangeOp) (x : ℕ) (a b : List ℕ) (pa pb : Bool) (lo : ℕ)
    → Ascending lo a
    → Ascending lo b
    → inside x (toggles op a b pa pb)
      ≡ xor (is_in op pa pb) (is_in op (xor pa (inside x a)) (xor pb (inside x b)))
unfolding toggles
inside-toggles op x [] [] pa pb lo ha hb = unfold inside in simp (xor-false, xor_same)
inside-toggles op x (v ∷ a) [] pa pb lo ha hb =
    round op x v pa pb (not pa) pb (v ∷ a) [] a [] (toggles op a [] (not pa) pb) (omega arith, ha.1)
      tt ha.1 tt (toggled x v a pa) (λ _. refl) (inside-toggles op x a [] (not pa) pb v ha.1 tt)
inside-toggles op x [] (w ∷ b) pa pb lo ha hb =
    round op x w pa pb pa (not pb) [] (w ∷ b) [] b (toggles op [] b pa (not pb)) tt
      (omega arith, hb.1) tt hb.1 (λ _. refl) (toggled x w b pb)
      (inside-toggles op x [] b pa (not pb) w tt hb.1)
inside-toggles op x (v ∷ a) (w ∷ b) pa pb lo ha hb = elim (Bool-cases (ltb v w)) [
  | inl first ↦
      let at : Ascending v (w ∷ b) = (ground arith, hb.1) in
      rw first (
        round op x v pa pb (not pa) pb (v ∷ a) (w ∷ b) a (w ∷ b) (toggles op a (w ∷ b) (not pa) pb)
          (omega arith, ha.1) at ha.1 at (toggled x v a pa) (λ _. refl)
          (inside-toggles op x a (w ∷ b) (not pa) pb v ha.1 at))
  | inr later ↦
      let from : Ascending w (v ∷ a) = (ground arith, ha.1) in
      rw later (elim (Bool-cases (v == w)) [
        | inl same ↦
            let tail : Ascending v b = rw (← (==_iff v w).0 same) at hb.1 in
            rw same (
              round op x v pa pb (not pa) (not pb) (v ∷ a) (w ∷ b) a b
                (toggles op a b (not pa) (not pb)) (omega arith, ha.1) (ground arith, hb.1) ha.1
                tail (toggled x v a pa) (λ k. toggled x w b pb (ground arith))
                (inside-toggles op x a b (not pa) (not pb) v ha.1 tail))
        | inr second ↦ rw second (
            round op x w pa pb pa (not pb) (v ∷ a) (w ∷ b) (v ∷ a) b
              (toggles op (v ∷ a) b pa (not pb)) from (omega arith, hb.1) from hb.1 (λ _. refl)
              (toggled x w b pb) (inside-toggles op x (v ∷ a) b pa (not pb) w from hb.1))
      ])
]
