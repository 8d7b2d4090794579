-- ===== src/Collector/Lists.antt =====
-- Lists of objects as bags: how often an object is in one, and how many references come from one.
use substrata_swift.Prelude.{ℕ, suc, ◌+◌, ◌-◌, ◌<◌, ◌≡◌, refl, arith, ◌==◌, ==_iff, if◌then◌else◌}
use substrata_swift.Prelude.{List, [], ◌∷◌, ◌++◌, length}
use substrata_swift.Collector.{list_del}

abbrev pub occ : ℕ → List ℕ → ℕ
occ x [] = 0
occ x (y ∷ ys) = let n = occ x ys in if y == x then suc n else n

pub occ-append : (x : ℕ) (xs ys : List ℕ) → occ x (xs ++ ys) ≡ occ x xs + occ x ys
occ-append x [] ys = omega arith
occ-append x (y ∷ xs) ys = ground (arith, occ-append x xs ys)

pub occ-list_del :
    (x p : ℕ) (xs : List ℕ) → occ x (list_del p xs) ≡ (if p == x then occ x xs - 1 else occ x xs)
unfolding list_del
occ-list_del x p [] = ground arith
occ-list_del x p (y ∷ xs) = ground (arith, occ-list_del x p xs, ==_iff y x, ==_iff p x, ==_iff y p)

pub length-list_del :
    (p : ℕ) (xs : List ℕ) → 0 < occ p xs → suc (length (list_del p xs)) ≡ length xs
unfolding list_del
length-list_del p [] h = omega arith
length-list_del p (y ∷ xs) h = ground (arith, length-list_del p xs, ==_iff y p)

pub length-list_del_absent :
    (p : ℕ) (xs : List ℕ) → occ p xs ≡ 0 → length (list_del p xs) ≡ length xs
unfolding list_del
length-list_del_absent p [] h = refl
length-list_del_absent p (y ∷ xs) h = ground (arith, length-list_del_absent p xs, ==_iff y p)

module _ (children : ℕ → List ℕ) where
  -- The references on an object from those in a list.
  abbrev pub edges : List ℕ → ℕ → ℕ
  edges [] x = 0
  edges (p ∷ ps) x = occ x (children p) + edges ps x

  pub edges-append : (xs ys : List ℕ) (x : ℕ) → edges (xs ++ ys) x ≡ edges xs x + edges ys x
  edges-append [] ys x = omega arith
  edges-append (y ∷ xs) ys x = omega (arith, edges-append xs ys x)

  pub edges-list_del :
      (p : ℕ) (xs : List ℕ) (x : ℕ)
      → 0 < occ p xs
      → edges xs x ≡ occ x (children p) + edges (list_del p xs) x
  unfolding list_del
  edges-list_del p [] x h = omega arith
  edges-list_del p (y ∷ xs) x h = ground (arith, edges-list_del p xs x, ==_iff y p)

  pub edges_same :
      (xs ys : List ℕ) → ((x : ℕ) → occ x xs ≡ occ x ys) → (x : ℕ) → edges xs x ≡ edges ys x
  edges_same [] [] h x = refl
  edges_same [] (y ∷ ys) h x = ground (arith, h y, ==_iff y y)
  edges_same (p ∷ xs) ys h x =
      let here : 0 < occ p ys = ground (arith, h p, ==_iff p p) in
      let same : (z : ℕ) → occ z xs ≡ occ z (list_del p ys) =
        λ z. ground (arith, h z, occ-list_del z p ys, ==_iff p z) in
      omega (arith, edges-list_del p ys x here, edges_same xs (list_del p ys) same x)
