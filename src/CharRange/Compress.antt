-- ===== src/CharRange/Compress.antt =====
-- `cr_compress` of libunicode.c keeps the set and leaves the points in strictly ascending order.
use substrata_swift.Prelude.{ℕ, suc, ◌≤◌, ◌<◌, ◌≡◌, ◌≢◌, refl, arith, false}
use substrata_swift.Prelude.{Option, none, some, List, [], ◌∷◌, length}
use substrata_swift.CharRange.{CharRange, odd, compress_from, cr_compress}
use substrata_swift.CharRange.Member.{inside, Ascending, Strict}

-- The points that the state of the loop stands for.
abbrev pending : Option (ℕ × ℕ) → List ℕ → List ℕ
pending none ps = ps
pending (some (p, q)) ps = p ∷ q ∷ ps

inside-compress_from :
    (x : ℕ) (pair : Option (ℕ × ℕ)) (ps : List ℕ)
    → odd (length ps) ≡ false
    → inside x (compress_from pair ps) ≡ inside x (pending pair ps)
unfolding inside compress_from odd
inside-compress_from x none [] e = refl
inside-compress_from x none (p ∷ []) e = ground arith
inside-compress_from x none (p ∷ q ∷ ps) e =
    ground (arith, inside-compress_from x none ps, inside-compress_from x (some (p, q)) ps)
inside-compress_from x (some (p, q)) [] e = refl
inside-compress_from x (some (p, q)) (r ∷ []) e = ground arith
inside-compress_from x (some (p, q)) (r ∷ s ∷ ps) e = ground (
  arith,
  inside-compress_from x (some (p, s)) ps,
  inside-compress_from x none ps,
  inside-compress_from x (some (r, s)) ps,
)

-- A pair at hand is not empty.
abbrev NotEmpty : Option (ℕ × ℕ) → Type 0
NotEmpty none = Unit
NotEmpty (some (p, q)) = p ≢ q

Ascending-lower : (lo hi : ℕ) (ps : List ℕ) → lo ≤ hi → Ascending hi ps → Ascending lo ps
Ascending-lower lo hi [] h a = tt
Ascending-lower lo hi (p ∷ ps) h a = (omega arith, a.1)

compress_from-Strict :
    (lo : ℕ) (pair : Option (ℕ × ℕ)) (ps : List ℕ)
    → NotEmpty pair
    → Ascending lo (pending pair ps)
    → Strict lo (compress_from pair ps)
unfolding compress_from
compress_from-Strict lo none [] n h = tt
compress_from-Strict lo none (p ∷ []) n h = tt
compress_from-Strict lo none (p ∷ q ∷ ps) n h = ground (
  arith,
  compress_from-Strict lo none ps tt (Ascending-lower lo q ps (omega arith) h.1.1),
  compress_from-Strict lo (some (p, q)) ps,
)
compress_from-Strict lo (some (p, q)) [] n h = ground arith
compress_from-Strict lo (some (p, q)) (r ∷ []) n h = ground arith
compress_from-Strict lo (some (p, q)) (r ∷ s ∷ ps) n h = ground (
  arith,
  compress_from-Strict lo (some (p, s)) ps,
  λ (k : q < s). compress_from-Strict (suc q) none ps tt (Ascending-lower (suc q) s ps k h.1.1.1.1),
  compress_from-Strict (suc q) (some (r, s)) ps,
)

-- `cr_compress` of an even number of points in ascending order stands for the same set, by points
-- in strictly ascending order: no interval is empty, and none meets the next.
pub cr_compress_lem :
    (cr : CharRange)
    → odd (length cr.points) ≡ false
    → Ascending 0 cr.points
    → Strict 0 (cr_compress cr).points
      × ((x : ℕ) → inside x (cr_compress cr).points ≡ inside x cr.points)
unfolding cr_compress
cr_compress_lem cr e a =
    (compress_from-Strict 0 none cr.points tt a, λ x. inside-compress_from x none cr.points e)
